-- ===== src/BufferWriter/Tests.antt =====
-- Tests of `BufferWriter`, and its theorems at concrete queues.
use lp_net.Prelude.{
  ℕ, ◌≡◌, refl, ap, arith, List, [], ◌∷◌, Option, some, ◌>>=◌, length, min, sym, replicate,
  length-replicate,
}
use lp_net.Buffer.{Buffer}
use lp_net.Buffer.Inv.{size_ahead}
use lp_net.Buffer.Window.{window}
use lp_net.Buffer.Refine.{contents}
use lp_net.BufferWriter.{BufferWriter, init}
use lp_net.BufferWriter.Frames.{Frames}
use lp_net.BufferWriter.Delivery.{append_all, send_all, append_all-send_all}

abbrev zeros : ℕ → List ℕ
zeros n = replicate n 0

length-zeros : (n : ℕ) → length (zeros n) ≡ n
length-zeros n = length-replicate n 0

-- A socket that takes at most one byte of each message.
abbrev take_one : List ℕ → Option ℕ
take_one xs = some (min 1 (length xs))

-- One message, 7 8, and room for one more.
abbrev frame : Buffer
frame = record { capacity = 2; put_pos = 2; get_pos = 0; cells = 7 ∷ 8 ∷ 0 ∷ [] }

abbrev one : BufferWriter
one = record { capacity = 2; q = frame ∷ [] }

contents-frame : contents frame ≡ 7 ∷ 8 ∷ []
contents-frame =
    sym (ap (window frame.cells 3 0) (sym (size_ahead {b = frame} (omega arith) (omega arith))))

one-Frames : Frames ((7 ∷ 8 ∷ []) ∷ []) one.q
one-Frames = (record { valid = omega arith; holds = contents-frame; start = refl }, tt)

append_all-send_all_example :
    (append_all zeros (init 2) ((7 ∷ 8 ∷ []) ∷ (5 ∷ []) ∷ []) >>= λ w. send_all take_one w 2)
    ≡ some (some (some 1) ∷ some (some 1) ∷ [], init 2)
append_all-send_all_example =
    append_all-send_all zeros take_one length-zeros (λ bytes. omega arith)
      ((7 ∷ 8 ∷ []) ∷ (5 ∷ []) ∷ []) 2 (omega arith, (omega arith, tt)) (omega arith)
