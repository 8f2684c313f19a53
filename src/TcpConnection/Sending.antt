-- ===== src/TcpConnection/Sending.antt =====
-- What a running connection sends, and when it waits for room in the socket.
use lp_net.Prelude.{
  refl, Bool, true, false, ℕ, ◌≡◌, refl, ap, List, Option, some, Bool, true, false, not,
  if◌then◌else◌, ◌>>◌,
}
use lp_net.RingBuffer.{locking}
use lp_net.Channel.{is_writing, enable_writing, disable_writing}
use lp_net.BufferWriter.{BufferWriter, empty}
use lp_net.BufferWriter
use lp_net.BufferWriter.Frames.{Frames}
use lp_net.TcpConnection.{answered, TcpConnection, lock, interest, written}

-- The connection runs and no one is in one of its methods.
pub record IsOpen (c : TcpConnection) : Type 0 where
  pub runs : c.running ≡ true
  pub free : c.held ≡ false

-- The connection has `messages` left, and asks for room in the socket if there are any.
pub record IsAfterSend (messages : List (List ℕ)) (answers : List (Option ℕ)) (c : TcpConnection)
    : Type 0 where
  pub still_open : IsOpen c
  pub left : Frames messages c.write_buffer.q
  pub answers_so_far : c.answers ≡ answers
  pub watches : is_writing (interest c.events) ≡ not (empty c.write_buffer)

-- What `send` makes of the connection `c`, by whether it ran.
unfoldable pub Outcome :
    List (List ℕ) → List (Option ℕ) → TcpConnection → Bool → TcpConnection → Type 0
Outcome messages answers c true c' = IsAfterSend messages answers c'
Outcome messages answers c false c' = c' ≡ c

watch_events : ℕ → Bool → Bool → ℕ
watch_events e is_empty is_on =
    if is_empty
    then (if is_on then (disable_writing (interest e)).events else e)
    else (if not is_on then (enable_writing (interest e)).events else e)

module _ (new_array : ℕ → List ℕ) (sock : List ℕ → Option ℕ) where
  write_out : TcpConnection → Option ℕ × Option (Option ℕ) × BufferWriter → Option TcpConnection
  write_out c out =
      some (written (record c { write_buffer = out.2; answers = answered c.answers out.1 }) out.0)

  pub lock-free : (c : TcpConnection) → c.held ≡ false → lock c ≡ some (record c { held = true })
  unfolding lock locking
  lock-free c free = ap (λ b. locking b >> some (record c { held = true })) free
