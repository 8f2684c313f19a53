-- ===== src/Channel/Tests.antt =====
-- A test of `Channel`. The callbacks write down who was called.
use lp_net.Prelude.{ℕ, ◌≡◌, refl, List, [], ◌∷◌, ◌++◌, some, none}
use lp_net.Channel.{Channel, raised, call, handle_with}
use lp_net.Channel.Dispatch.{Callback, on_read, on_write, on_close, on_error}

abbrev noted : ℕ → List ℕ → List ℕ
noted n log = log ++ n ∷ []

-- Interested in reading only; 1 stands for a read, 2 for a write, 3 for a close.
abbrev reader : Channel (List ℕ)
reader = record {
  read_cb = some (noted 1);
  write_cb = some (noted 2);
  close_cb = some (noted 3);
  error_cb = none;
  events = 1;
}

-- Read, write and close, and no error after the close.
close_comes_last : handle_with reader 29 [] ≡ some (1 ∷ 2 ∷ 3 ∷ [])
unfolding handle_with raised call
close_comes_last = refl

-- The error callback was never set.
error_throws : handle_with reader 8 [] ≡ none
unfolding handle_with raised call
error_throws = refl

-- Each callback writes its number down.
abbrev number : Callback → ℕ
number on_read = 1
number on_write = 2
number on_close = 3
number on_error = 4
