-- ===== src/TcpConnection.antt =====
-- net/tcp/TcpConnection.h and TcpConnection.cpp: a connection over its reader, its writer and the bits of
-- its channel. The mutex is not recursive: to lock it while it is held is a step that cannot be made.
pub mod Idle
pub mod Closing
pub mod Sending
mod Tests
use lp_net.Prelude.{
  ℕ, ◌%◌, ◌^◌, ◌*◌, List, [], ◌∷◌, ◌++◌, Option, none, some, Bool, true, false, not, ◌==◌,
  if◌then◌else◌, ◌>>=◌, ◌>>◌, length,
}
use lp_net.RingBuffer.{locking}
use lp_net.Buffer.{Buffer}
use lp_net.Buffer
use lp_net.Channel.{
  Channel, enable_reading, enable_writing, disable_writing, is_writing, handle_with,
}
use lp_net.BufferReader.{read_fd}
use lp_net.BufferWriter.{BufferWriter, append, empty}
use lp_net.BufferWriter

abbrev pub max_buffer_size : ℕ
max_buffer_size = 1024 * 1024

-- What a connection asks of others: of its scheduler, to watch its channel or to forget a descriptor, or
-- to call `close` later; and the two callbacks that tell of its end.
pub data Request : Type 0 where
  update_channel : ℕ → Request
  remove_channel : ℕ → Request
  close_later : Request
  on_closed : Request
  on_disconnected : Request

-- What a read callback does with the connection, in order.
pub data Call : Type 0 where
  send_bytes : List ℕ → Call
  disconnect_it : Call

-- The reader that a read callback leaves, its calls, and what it returns.
pub record Reply : Type 0 where
  pub buffer : Buffer
  pub calls : List Call
  pub keep : Bool

-- `held` says whether the mutex is held, `requests` are in the order in which they were made, and `answers`
-- are what the socket answered to the messages that the writer handed to it, which the code drops.
pub record TcpConnection : Type 0 where
  pub running : Bool
  pub held : Bool
  pub fd : ℕ
  pub events : ℕ
  pub read_buffer : Buffer
  pub write_buffer : BufferWriter
  pub read_cb : Option (Buffer → Reply)
  pub has_close_cb : Bool
  pub has_disconnect_cb : Bool
  pub requests : List Request
  pub answers : List (Option ℕ)

unfoldable pub ask : TcpConnection → Request → TcpConnection
ask c r = record c { requests = c.requests ++ r ∷ [] }

unfoldable pub lock : TcpConnection → Option TcpConnection
lock c = locking c.held >> some (record c { held = true })

abbrev pub unlock : TcpConnection → TcpConnection
unlock c = record c { held = false }

-- close()
unfoldable pub close : TcpConnection → TcpConnection
close c =
    if c.running
    then (let c1 = ask (record c { running = false }) (remove_channel c.fd) in
        let c2 = if c.has_close_cb then ask c1 on_closed else c1 in
        if c.has_disconnect_cb then ask c2 on_disconnected else c2)
    else c

-- onClose, onError and onDisconnect
unfoldable pub on_close : TcpConnection → Option TcpConnection
on_close c = lock c >>= λ c'. some (unlock (close c'))

unfoldable pub disconnect : TcpConnection → Option TcpConnection
disconnect c = lock c >>= λ c'. some (unlock (ask c' close_later))

-- The channel with the bits of the connection; its callbacks do not matter here.
abbrev pub interest : ℕ → Channel (Unit {0})
interest events = record {
  read_cb = none;
  write_cb = none;
  close_cb = none;
  error_cb = none;
  events = events;
}

-- What `onWrite` does once the writer has sent.
pub watch_writing : TcpConnection → TcpConnection
watch_writing c =
    if empty c.write_buffer
    then (if is_writing (interest c.events)
        then record c { events = (disable_writing (interest c.events)).events }
        else c)
    else (if not (is_writing (interest c.events))
        then record c { events = (enable_writing (interest c.events)).events }
        else c)

-- The answer of the socket, if the writer asked it.
unfoldable pub answered : List (Option ℕ) → Option (Option ℕ) → List (Option ℕ)
answered answers none = answers
answered answers (some answer) = answers ++ answer ∷ []

-- The result of the writer: `none` is -1.
pub written : TcpConnection → Option ℕ → TcpConnection
written c none = close c
written c (some size) = watch_writing c

-- new_array n is what `new char[n]` holds; `sock` is what the socket answers to the bytes that it is given.
module _ (new_array : ℕ → List ℕ) (sock : List ℕ → Option ℕ) where
  -- The constructor; `running_` is false.
  unfoldable pub init : ℕ → Option (Buffer → Reply) → Bool → Bool → TcpConnection
  init fd read_cb has_close_cb has_disconnect_cb = record {
    running = false;
    held = false;
    fd = fd;
    events = (enable_reading (interest 0)).events;
    read_buffer = Buffer.init new_array max_buffer_size;
    write_buffer = BufferWriter.init max_buffer_size;
    read_cb = read_cb;
    has_close_cb = has_close_cb;
    has_disconnect_cb = has_disconnect_cb;
    requests = update_channel fd ∷ [];
    answers = [];
  }

  -- The body of `onWrite` under the lock.
  pub write_locked : TcpConnection → Option TcpConnection
  write_locked c =
      if not c.running
      then some c
      else (BufferWriter.send sock c.write_buffer >>= λ out.
          some
            (written (record c { write_buffer = out.2; answers = answered c.answers out.1 }) out.0))

  pub on_write : TcpConnection → Option TcpConnection
  on_write c = do c1 ← lock c; c2 ← write_locked c1; some (unlock c2)

  -- The length becomes a `uint32_t`.
  pub send : TcpConnection → List ℕ → ℕ → Option TcpConnection
  send c bytes len =
      if c.running
      then (do
        c1 ← lock c
        (added, w) ← append new_array c1.write_buffer bytes (len % 2 ^ 32)
        on_write (unlock (record c1 { write_buffer = w })))
      else some c

  pub make_call : TcpConnection → Call → Option TcpConnection
  make_call c (send_bytes bytes) = send c bytes (length bytes)
  make_call c disconnect_it = disconnect c

  pub make_calls : TcpConnection → List Call → Option TcpConnection
  make_calls c [] = some c
  make_calls c (call ∷ calls) = make_call c call >>= λ c'. make_calls c' calls

  -- The call of `read_cb_`, which is made with the mutex held.
  pub deliver : TcpConnection → Option (Buffer → Reply) → Option TcpConnection
  deliver c none = some c
  deliver c (some cb) = do
    let reply = cb c.read_buffer
    c' ← make_calls (record c { read_buffer = reply.buffer }) reply.calls
    some (if reply.keep then c' else close c')

  -- The body of `onRead` under the lock.
  pub read_locked : TcpConnection → Option TcpConnection
  read_locked c =
      if not c.running
      then some c
      else (read_fd new_array sock c.read_buffer >>= λ out.
          (let c' = record c { read_buffer = out.1 } in
            if out.0 == 0 then some (close c') else deliver c' c.read_cb))

  pub on_read : TcpConnection → Option TcpConnection
  on_read c = do c1 ← lock c; c2 ← read_locked c1; some (unlock c2)

  -- The channel that the constructor makes.
  pub channel : ℕ → Channel (Option TcpConnection)
  channel events = record {
    read_cb = some (λ c. c >>= on_read);
    write_cb = some (λ c. c >>= on_write);
    close_cb = some (λ c. c >>= on_close);
    error_cb = some (λ c. c >>= on_close);
    events = events;
  }

  -- The scheduler hands events to the channel.
  unfoldable pub handle_event : TcpConnection → ℕ → Option TcpConnection
  handle_event c raised = handle_with (channel c.events) raised (some c) >>= λ o. o
