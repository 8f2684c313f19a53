-- ===== src/TcpConnection/Closing.antt =====
-- A connection that closes asks to be forgotten once.
pub mod Removals
use mathlib.Core.Path.{subst}
use lp_net.Prelude.{
  ◌%◌, ◌^◌, ℕ, zero, suc, ◌+◌, ◌≡◌, ◌⊎◌, refl, sym, ap, ◌∙◌, arith, List, [], ◌∷◌, ◌++◌, Option,
  none, some, Bool, true, false, not, ◌==◌, Bool-cases, inl, inr, if◌then◌else◌, ◌>>=◌, ◌>>◌,
  length,
}
use lp_net.RingBuffer.{locking}
use lp_net.Buffer.{Buffer}
use lp_net.Channel.{
  raised, event_in, event_out, event_err, event_hup, call, handle_with, is_writing,
}
use lp_net.BufferReader.{read_fd}
use lp_net.BufferWriter.{BufferWriter, append, empty}
use lp_net.BufferWriter
use lp_net.TcpConnection.{
  answered, Request, update_channel, remove_channel, close_later, on_closed, on_disconnected, Call,
  send_bytes, disconnect_it, Reply, TcpConnection, ask, lock, unlock, close, on_close, disconnect,
  watch_writing, written, write_locked, on_write, send, make_call, make_calls, deliver, read_locked,
  on_read, channel, handle_event,
}
use lp_net.TcpConnection.Idle.{Happening, event, sending, disconnected, happen, happen_all}
use lp_net.TcpConnection.Closing.Removals.{
  removals, removals-append, lives, Keeps, Keeps-bind, lives-close, lives-watch_writing, Keeps-lock,
  Keeps-unlock, lives-written, on_close-Keeps, disconnect-Keeps, Keeps-if, Keeps-of,
  lives-write_buffer, lives-read_buffer, lives-unlock,
}

-- What is done with a connection: what happens to it, `disconnect`, and the `close` that it posts, which takes no lock.
pub data Step : Type 0 where
  happens : Happening → Step
  disconnects : Step
  closes : Step

module _ (new_array : ℕ → List ℕ) (sock : List ℕ → Option ℕ) where
  unfoldable pub perform : TcpConnection → Step → Option TcpConnection
  perform c (happens h) = happen new_array sock c h
  perform c disconnects = disconnect c
  perform c closes = some (close c)

  unfoldable pub perform_all : TcpConnection → List Step → Option TcpConnection
  perform_all c [] = some c
  perform_all c (s ∷ ss) = perform c s >>= λ c'. perform_all c' ss

module _ (new_array : ℕ → List ℕ) (sock : List ℕ → Option ℕ) (n : ℕ) where
  write_locked-Keeps : (c : TcpConnection) → lives c ≡ n → Keeps n (write_locked new_array sock c)
  unfolding write_locked
  write_locked-Keeps c h = Keeps-if n (not c.running) _ _ h (
      Keeps-of n (BufferWriter.send sock c.write_buffer) _ (λ out.
        lives-written (record c { write_buffer = out.2; answers = answered c.answers out.1 }) out.0
        ∙ lives-write_buffer c out.2 (answered c.answers out.1)
        ∙ h))

  on_write-Keeps : (c : TcpConnection) → lives c ≡ n → Keeps n (on_write new_array sock c)
  unfolding on_write
  on_write-Keeps c h = Keeps-bind n (lock c) _ (Keeps-lock n c h) (λ d k.
      Keeps-bind n (write_locked new_array sock d) _ (write_locked-Keeps d k) (Keeps-unlock n))

  send-Keeps :
      (c : TcpConnection) (bytes : List ℕ) (len : ℕ)
      → lives c ≡ n
      → Keeps n (send new_array sock c bytes len)
  unfolding send
  send-Keeps c bytes len h =
      Keeps-if n c.running _ _
        (Keeps-bind n (lock c) _ (Keeps-lock n c h) (λ d k.
          Keeps-of n (append new_array d.write_buffer bytes (len % 2 ^ 32)) _ (λ out.
            on_write-Keeps (unlock (record d { write_buffer = out.1 })) (
              lives-unlock (record d { write_buffer = out.1 })
              ∙ lives-write_buffer d out.1 d.answers
              ∙ k))))
        h

  make_calls-Keeps :
      (c : TcpConnection) (calls : List Call)
      → lives c ≡ n
      → Keeps n (make_calls new_array sock c calls)
  unfolding make_calls make_call
  make_calls-Keeps c [] h = h
  make_calls-Keeps c (send_bytes bytes ∷ calls) h =
      Keeps-bind n (send new_array sock c bytes (length bytes)) _
        (send-Keeps c bytes (length bytes) h) (λ d k. make_calls-Keeps d calls k)
  make_calls-Keeps c (disconnect_it ∷ calls) h =
      Keeps-bind n (disconnect c) _ (disconnect-Keeps n c h) (λ d k. make_calls-Keeps d calls k)

  deliver-Keeps :
      (c : TcpConnection) (cb : Option (Buffer → Reply))
      → lives c ≡ n
      → Keeps n (deliver new_array sock c cb)
  unfolding deliver
  deliver-Keeps c none h = h
  deliver-Keeps c (some cb) h =
      Keeps-bind n
        (make_calls new_array sock (record c { read_buffer = (cb c.read_buffer).buffer })
          (cb c.read_buffer).calls)
        _
        (make_calls-Keeps _ (cb c.read_buffer).calls
          (lives-read_buffer c (cb c.read_buffer).buffer ∙ h))
        (λ d k. kept d k (cb c.read_buffer).keep)
    where
      kept : (d : TcpConnection) → lives d ≡ n → (b : Bool) → lives (if b then d else close d) ≡ n
      kept d k true = k
      kept d k false = lives-close d ∙ k

  read_locked-Keeps : (c : TcpConnection) → lives c ≡ n → Keeps n (read_locked new_array sock c)
  unfolding read_locked
  read_locked-Keeps c h = Keeps-if n (not c.running) _ _ h (
      Keeps-of n (read_fd new_array sock c.read_buffer) _ (λ out.
        Keeps-if n (out.0 == 0) _ _
          (lives-close (record c { read_buffer = out.1 }) ∙ lives-read_buffer c out.1 ∙ h)
          (deliver-Keeps (record c { read_buffer = out.1 }) c.read_cb
            (lives-read_buffer c out.1 ∙ h))))

  on_read-Keeps : (c : TcpConnection) → lives c ≡ n → Keeps n (on_read new_array sock c)
  unfolding on_read
  on_read-Keeps c h = Keeps-bind n (lock c) _ (Keeps-lock n c h) (λ d k.
      Keeps-bind n (read_locked new_array sock d) _ (read_locked-Keeps d k) (Keeps-unlock n))

  -- The same of the state of the channel's callbacks.
  KeepsState : Option (Option TcpConnection) → Type 0
  KeepsState none = Unit
  KeepsState (some o) = Keeps n o

  KeepsState-bind :
      (o : Option (Option TcpConnection)) (f : Option TcpConnection → Option (Option TcpConnection))
      → KeepsState o
      → ((s : Option TcpConnection) → Keeps n s → KeepsState (f s))
      → KeepsState (o >>= f)
  unfolding KeepsState
  KeepsState-bind none f h k = tt
  KeepsState-bind (some s) f h k = k s h

  callback :
      (b : Bool) (f : TcpConnection → Option TcpConnection) (s : Option TcpConnection)
      → ((c : TcpConnection) → lives c ≡ n → Keeps n (f c))
      → Keeps n s
      → KeepsState (if b then some (s >>= f) else some s)
  unfolding KeepsState
  callback true f s keep h = Keeps-bind n s f h keep
  callback false f s keep h = h

  last_callback :
      (b e : Bool) (s : Option TcpConnection)
      → Keeps n s
      → KeepsState
          (if b then some (s >>= on_close) else if e then some (s >>= on_close) else some s)
  unfolding KeepsState
  last_callback true e s h = Keeps-bind n s on_close h (on_close-Keeps n)
  last_callback false e s h = callback e on_close s (on_close-Keeps n) h

  handle_event-Keeps :
      (c : TcpConnection) (e : ℕ) → lives c ≡ n → Keeps n (handle_event new_array sock c e)
  unfolding handle_event channel handle_with call KeepsState
  handle_event-Keeps c e h = flat (handle_with (channel new_array sock c.events) e (some c)) (
      KeepsState-bind _ _
        (callback (raised e event_in) (on_read new_array sock) (some c) on_read-Keeps h)
        (λ s k.
          KeepsState-bind _ _
            (callback (raised e event_out) (on_write new_array sock) s on_write-Keeps k)
            (λ t l. last_callback (raised e event_hup) (raised e event_err) t l)))
    where
      flat : (o : Option (Option TcpConnection)) → KeepsState o → Keeps n (o >>= λ s. s)
      flat none k = tt
      flat (some s) k = k

  happen-Keeps :
      (c : TcpConnection) (h : Happening) → lives c ≡ n → Keeps n (happen new_array sock c h)
  unfolding happen
  happen-Keeps c (event e) k = handle_event-Keeps c e k
  happen-Keeps c (sending bytes len) k = send-Keeps c bytes len k
  happen-Keeps c disconnected k = on_close-Keeps n c k

  perform-Keeps :
      (c : TcpConnection) (s : Step) → lives c ≡ n → Keeps n (perform new_array sock c s)
  unfolding perform
  perform-Keeps c (happens h) k = happen-Keeps c h k
  perform-Keeps c disconnects k = disconnect-Keeps n c k
  perform-Keeps c closes k = lives-close c ∙ k

  perform_all-Keeps :
      (ss : List Step) (c : TcpConnection) → lives c ≡ n → Keeps n (perform_all new_array sock c ss)
  unfolding perform_all
  perform_all-Keeps [] c h = h
  perform_all-Keeps (x ∷ ss) c h =
      Keeps-bind n (perform new_array sock c x) _ (perform-Keeps c x h)
        (λ d k. perform_all-Keeps ss d k)

module _ (new_array : ℕ → List ℕ) (sock : List ℕ → Option ℕ) where
  -- A connection that has not asked its scheduler to be forgotten asks exactly once if it runs and then stops running, and never
  -- otherwise, whatever follows: events of its channel, calls of `send`, `onDisconnect` and `disconnect`, and the `close`
  -- that `disconnect` posts, with any read callback, as long as all of them return.
  pub closes_once :
      (ss : List Step) (c c' : TcpConnection)
      → removals c.requests ≡ 0
      → perform_all new_array sock c ss ≡ some c'
      → removals c'.requests + (if c'.running then 1 else 0) ≡ (if c.running then 1 else 0)
  unfolding lives
  closes_once ss c c' fresh ran =
      subst (Keeps (if c.running then 1 else 0)) ran
        (perform_all-Keeps new_array sock (if c.running then 1 else 0) ss c (ground (arith, fresh)))
