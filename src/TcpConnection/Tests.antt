-- ===== src/TcpConnection/Tests.antt =====
-- Tests of `TcpConnection`, and its theorems at concrete connections.
use lp_net.Prelude.{
  ℕ, ◌+◌, ◌≡◌, refl, arith, List, [], ◌∷◌, Option, some, true, false, length, replicate,
  length-replicate,
}
use lp_net.RingBuffer.{locking}
use lp_net.Buffer.{Buffer}
use lp_net.Buffer.Inv.{IsValid}
use lp_net.BufferWriter
use lp_net.TcpConnection.{
  disconnect, close_later, Reply, TcpConnection, remove_channel, on_closed, update_channel,
  send_bytes, init, on_close, lock, close, ask,
}
use lp_net.TcpConnection.Idle.{
  event, sending, disconnected, happen, happen_all, new_connection_idle,
}
use lp_net.TcpConnection.Closing.Removals.{removals}
use lp_net.TcpConnection.Closing.{happens, disconnects, closes, perform, perform_all, closes_once}

abbrev zeros : ℕ → List ℕ
zeros n = replicate n 0

length-zeros : (n : ℕ) → length (zeros n) ≡ n
length-zeros n = length-replicate n 0

-- A socket that takes one byte, and none of no bytes.
abbrev take_one : List ℕ → Option ℕ
take_one [] = some 0
take_one (x ∷ xs) = some 1

-- A read callback that echoes.
abbrev echo : Buffer → Reply
echo b = record { buffer = b; calls = send_bytes (9 ∷ []) ∷ []; keep = true }

-- A reader with one byte.
abbrev one_byte : Buffer
one_byte = record { capacity = 5000; put_pos = 1; get_pos = 0; cells = zeros 5001 }

one_byte-IsValid : IsValid one_byte
one_byte-IsValid = record {
  allocated = length-zeros 5001;
  put_in = omega arith;
  get_in = omega arith;
  small = omega arith;
}

-- A connection on descriptor 5 that runs.
abbrev running_one : TcpConnection
running_one = record {
  running = true;
  held = false;
  fd = 5;
  events = 1;
  read_buffer = one_byte;
  write_buffer = record { capacity = 2; q = [] };
  read_cb = some echo;
  has_close_cb = true;
  has_disconnect_cb = false;
  requests = update_channel 5 ∷ [];
  answers = [];
}

new_connection_idle_example :
    happen_all zeros take_one
      (init zeros take_one 5 (some echo) true false)
      (event 1 ∷ sending (7 ∷ []) 1 ∷ disconnected ∷ [])
    ≡ some (init zeros take_one 5 (some echo) true false)
new_connection_idle_example =
    new_connection_idle zeros take_one 5 (some echo) true false
      (event 1 ∷ sending (7 ∷ []) 1 ∷ disconnected ∷ [])

-- The connection after `disconnect` and the `close` that it posted.
abbrev forgotten : TcpConnection
forgotten = record running_one {
  running = false;
  requests = update_channel 5 ∷ close_later ∷ remove_channel 5 ∷ on_closed ∷ [];
}

forgets :
    perform_all zeros take_one running_one (disconnects ∷ closes ∷ happens disconnected ∷ [])
    ≡ some forgotten
unfolding perform_all perform happen on_close disconnect lock locking close ask
forgets = refl

closes_once_example : removals forgotten.requests + 0 ≡ 1
unfolding removals
closes_once_example =
    closes_once zeros take_one (disconnects ∷ closes ∷ happens disconnected ∷ []) running_one
      forgotten refl forgets
