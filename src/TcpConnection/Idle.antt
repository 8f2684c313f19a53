-- ===== src/TcpConnection/Idle.antt =====
-- A connection that does not run. Nothing in the class sets `running_`.
use lp_net.Prelude.{ℕ, ◌≡◌, refl, arith, List, [], ◌∷◌, Option, some, Bool, false, ◌>>=◌}
use lp_net.RingBuffer.{locking}
use lp_net.Buffer.{Buffer}
use lp_net.Channel.{call, handle_with}
use lp_net.TcpConnection.{
  Reply, TcpConnection, lock, close, on_close, init, write_locked, on_write, send, read_locked,
  on_read, channel, handle_event,
}

-- What happens to a connection: events of its channel, and calls of `send` and `onDisconnect`.
pub data Happening : Type 0 where
  event : ℕ → Happening
  sending : List ℕ → ℕ → Happening
  disconnected : Happening

module _ (new_array : ℕ → List ℕ) (sock : List ℕ → Option ℕ) where
  unfoldable pub happen : TcpConnection → Happening → Option TcpConnection
  happen c (event e) = handle_event new_array sock c e
  happen c (sending bytes len) = send new_array sock c bytes len
  happen c disconnected = on_close c

  unfoldable pub happen_all : TcpConnection → List Happening → Option TcpConnection
  happen_all c [] = some c
  happen_all c (h ∷ hs) = happen c h >>= λ c'. happen_all c' hs

  -- The connection does not run, and no one is in one of its methods.
  abbrev pub rest : TcpConnection → TcpConnection
  rest c = record c { running = false; held = false }

  on_write-rest : (c : TcpConnection) → on_write new_array sock (rest c) ≡ some (rest c)
  unfolding on_write write_locked lock locking
  on_write-rest c = refl

  on_read-rest : (c : TcpConnection) → on_read new_array sock (rest c) ≡ some (rest c)
  unfolding on_read read_locked lock locking
  on_read-rest c = refl

  on_close-rest : (c : TcpConnection) → on_close (rest c) ≡ some (rest c)
  unfolding on_close close lock locking
  on_close-rest c = refl

  handle_event-rest :
      (c : TcpConnection) (e : ℕ) → handle_event new_array sock (rest c) e ≡ some (rest c)
  unfolding handle_event channel handle_with call
  handle_event-rest c e = ground (arith, on_write-rest c, on_read-rest c, on_close-rest c)

  pub happen-rest : (c : TcpConnection) (h : Happening) → happen (rest c) h ≡ some (rest c)
  unfolding happen send
  happen-rest c (event e) = handle_event-rest c e
  happen-rest c (sending bytes len) = refl
  happen-rest c disconnected = on_close-rest c

  happen_all-rest :
      (c : TcpConnection) (hs : List Happening) → happen_all (rest c) hs ≡ some (rest c)
  unfolding happen_all
  happen_all-rest c [] = refl
  happen_all-rest c (h ∷ hs) = rw (happen-rest c h) (happen_all-rest c hs)

  -- A connection as the constructor leaves it stays so, whatever events its channel gets and whatever is
  -- sent: it reads nothing, sends nothing, queues nothing, and calls none of its callbacks.
  pub new_connection_idle :
      (fd : ℕ) (read_cb : Option (Buffer → Reply)) (on_end on_loss : Bool) (hs : List Happening)
      → happen_all (init new_array sock fd read_cb on_end on_loss) hs
        ≡ some (init new_array sock fd read_cb on_end on_loss)
  unfolding init
  new_connection_idle fd read_cb on_end on_loss hs =
      happen_all-rest (init new_array sock fd read_cb on_end on_loss) hs
