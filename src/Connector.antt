-- ===== src/Connector.antt =====
-- net/Connector.h and Connector.cpp, with `connect` and `close` of net/socket_util.h as far as they use them. A
-- callback for connections is set. The events given to the scheduler are a list, and firing the
-- first of them is a step.
pub mod Retries
pub mod Outcome
mod Tests
use lp_net.Prelude.{
  ℕ, zero, suc, ◌+◌, ◌*◌, List, [], ◌∷◌, ◌++◌, Option, none, some, Bool, true, false, not, ltb,
  ◌==◌, ◌||◌, ◌>>=◌, ℤ, pos, negsuc, if◌then◌else◌,
}

-- `retry_times_` is an `int`, and may become negative.
unfoldable pub decrement : ℤ → ℤ
decrement (pos zero) = negsuc 0
decrement (pos (suc n)) = pos n
decrement (negsuc n) = negsuc (suc n)

unfoldable pub is_positive : ℤ → Bool
is_positive (pos zero) = false
is_positive (pos (suc n)) = true
is_positive (negsuc n) = false

-- `sockfd` is the descriptor of `socket_`, `none` for -1; `posted` are the delays of the events that wait in
-- the scheduler, which looks at a delay only where its queue is full; `attempts` counts the calls of `socket_api::connect`; `connected` are the arguments of
-- `connect_cb_`, and `disconnects` counts the calls of `disconnect_cb_`.
pub record Connector : Type 0 where
  pub connecting : Bool
  pub next_retry_interval : ℕ
  pub retry_times : ℤ
  pub sockfd : Option ℕ
  pub has_disconnect_cb : Bool
  pub posted : List ℕ
  pub attempts : ℕ
  pub connected : List ℕ
  pub disconnects : ℕ

-- `fd` is what `socket_tcp` returned.
unfoldable pub init : Option ℕ → Bool → Connector
init fd has_disconnect_cb = record {
  connecting = false;
  next_retry_interval = 500;
  retry_times = pos 5;
  sockfd = fd;
  has_disconnect_cb = has_disconnect_cb;
  posted = [];
  attempts = 0;
  connected = [];
  disconnects = 0;
}

-- Socket::isValid()
unfoldable pub is_valid : Option ℕ → Bool
is_valid none = false
is_valid (some fd) = ltb 0 fd

-- Socket::close(): what `close` of the operating system answers decides whether the descriptor is forgotten.
unfoldable pub close_socket : (ℕ → Bool) → Option ℕ → Option ℕ
close_socket closes none = none
close_socket closes (some fd) = if closes fd then none else some fd

-- The first lines of the event.
unfoldable pub doubled : ℕ → ℕ
doubled n = if ltb 30000 (n * 2) then 30000 else n * 2

-- The rest of `connect` after the call of `socket_api::connect`; `none` is -1.
unfoldable pub answered : Connector → Option ℕ → Bool × Connector
answered c none = (false, record c { posted = c.posted ++ c.next_retry_interval ∷ [] })
answered c (some server_fd) = (
  true,
  record c {
    connected = c.connected ++ server_fd ∷ [];
    next_retry_interval = 500;
    retry_times = pos 5;
    connecting = true;
  },
)

unfoldable pub close : (ℕ → Bool) → Connector → Connector
close closes c =
    if c.connecting
    then record c {
      sockfd = if is_valid c.sockfd then close_socket closes c.sockfd else c.sockfd;
      disconnects = if c.has_disconnect_cb then suc c.disconnects else c.disconnects;
      connecting = false;
    }
    else c

-- An address is a number. `dial fd address n` is what `connect` of the operating system answers to the n-th call, for the
-- descriptor `fd`.
module _ (dial : Option ℕ → ℕ → ℕ → Option ℕ) where
  unfoldable pub connect : Connector → ℕ → Bool × Connector
  connect c address =
      if c.connecting || not (is_positive c.retry_times)
      then (false, c)
      else answered (record c { attempts = suc c.attempts }) (dial c.sockfd address c.attempts)

  unfoldable pub after_retry : Bool × Connector → Connector
  after_retry (true, c) = c
  after_retry (false, c) = record c { retry_times = decrement c.retry_times }

  -- The event that `connect` gives to the scheduler. It reads `ip` and `port` through references to the parameters of
  -- a call that has returned: `stale n` is the address that the n-th call then finds there, and `none` where reading it
  -- is a fault.
  unfoldable pub retry : (ℕ → Option ℕ) → Connector → Option Connector
  retry stale c = stale c.attempts >>= λ address. some (
      after_retry
        (connect (record c { next_retry_interval = doubled c.next_retry_interval }) address))

  unfoldable pub fire_first : (ℕ → Option ℕ) → Connector → List ℕ → Option Connector
  fire_first stale c [] = some c
  fire_first stale c (delay ∷ rest) = retry stale (record c { posted = rest })

  -- The scheduler runs the first event that waits, if there is one.
  unfoldable pub fire : (ℕ → Option ℕ) → Connector → Option Connector
  fire stale c = fire_first stale c c.posted
