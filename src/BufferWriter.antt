-- ===== src/BufferWriter.antt =====
-- util/buffer/BufferWriter.h and BufferWriter.cpp: a bounded queue of buffers, one for each message.
pub mod Frames
pub mod Delivery
mod Tests
use lp_net.Prelude.{
  ℕ, List, [], ◌∷◌, ◌++◌, Option, none, some, Bool, true, false, ◌==◌, if◌then◌else◌, ◌>>=◌, length,
}
use lp_net.Buffer
use lp_net.Buffer.{Buffer}
use lp_net.Buffer.Socket.{write_fd}

-- `q_`, oldest buffer first.
pub record BufferWriter : Type 0 where
  pub capacity : ℕ
  pub q : List Buffer

pub init : ℕ → BufferWriter
init qcap = record { capacity = qcap; q = [] }

unfoldable pub size : BufferWriter → ℕ
size w = length w.q

unfoldable pub empty : BufferWriter → Bool
empty w = size w == 0

unfoldable pub full : BufferWriter → Bool
full w = w.capacity == size w

pub append : (ℕ → List ℕ) → BufferWriter → List ℕ → ℕ → Option (Bool × BufferWriter)
append new_array w bytes len =
    if full w
    then some (false, w)
    else (Buffer.write (Buffer.init new_array len) (some bytes) len >>= λ out.
        some (true, record w { q = w.q ++ out.1 ∷ [] }))

-- The result (`none` is -1), what the socket answered, which the code drops, and the new state.
pub send : (List ℕ → Option ℕ) → BufferWriter → Option (Option ℕ × Option (Option ℕ) × BufferWriter)
send sock w = elim w.q [
  | [] ↦ some (none, none, w)
  | b ∷ rest ↦
      (write_fd sock b (Buffer.readable_bytes b) >>= λ out.
      some (some (Buffer.readable_bytes b), some out.0, record w { q = rest }))
]
