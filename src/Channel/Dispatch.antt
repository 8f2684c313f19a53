-- ===== src/Channel/Dispatch.antt =====
-- Which callbacks `handleEvent(int)` calls, and in which order.
use lp_net.Prelude.{ℕ, ◌≡◌, arith, List, [], ◌∷◌, ◌++◌, some, Bool, true, false, if◌then◌else◌}
use lp_net.Channel.{Channel, raised, call, handle_with, event_in, event_out, event_err, event_hup}

pub data Callback : Type 0 where
  on_read on_write on_close on_error : Callback

-- A callback if its event is there.
abbrev pub when : Bool → Callback → List Callback
when true k = k ∷ []
when false k = []

-- What is due: the read, then the write, then the close or, where there is none, the error.
abbrev pub due : ℕ → List Callback
due events =
    when (raised events event_in) on_read
    ++ (when (raised events event_out) on_write
        ++ (if raised events event_hup
            then on_close ∷ []
            else when (raised events event_err) on_error))

module _ {ℓ} {S : Type ℓ} (act : Callback → S → S) where
  abbrev pub perform : List Callback → S → S
  perform [] s = s
  perform (k ∷ ks) s = perform ks (act k s)

  abbrev pub performing : ℕ → Channel S
  performing events = record {
    read_cb = some (act on_read);
    write_cb = some (act on_write);
    close_cb = some (act on_close);
    error_cb = some (act on_error);
    events = events;
  }

  -- `handleEvent(int)` with all callbacks set: it calls the read callback, then the write callback,
  -- then the close callback, each if its event is there, and the error callback only without a close.
  pub handle_with_lem :
      (interest events : ℕ) (s : S)
      → handle_with (performing interest) events s ≡ some (perform (due events) s)
  unfolding handle_with call
  handle_with_lem interest events s = ground arith
