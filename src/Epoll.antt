-- ===== src/Epoll.antt =====
-- net/EpollManager.h and EpollManager.cpp, as built for Linux: the table of channels, what is told to the
-- kernel and what is done with its answers. The calls `epoll_ctl` and `epoll_wait` are parameters. A channel is an
-- index; the mutex is not recursive, and to lock it where it is held is a step that cannot be made.
pub mod Removal
pub mod Descriptors
mod Tests
use lp_net.Prelude.{
  ℕ, List, [], ◌∷◌, ◌++◌, Option, none, some, Bool, true, false, not, ◌==◌, if◌then◌else◌, ◌>>=◌,
  ◌>>◌,
}
use lp_net.RingBuffer.{locking}
use lp_net.Channel.{Channel, handle_with}

-- EventCTL
pub data EventCtl : Type 0 where
  add : EventCtl
  mod_it : EventCtl
  del : EventCtl

-- One call of `epoll_ctl`; `user_data` is `event.data`.
pub record Ctl : Type 0 where
  pub op : EventCtl
  pub fd : ℕ
  pub events : ℕ
  pub user_data : ℕ

-- The descriptor in `event.data` and the events, for each entry that `epoll_wait` fills.
abbrev pub Ready : Type 0
Ready = List (ℕ × ℕ)

-- The answer of `epoll_wait`: an error other than EINTR, EINTR, or the entries.
pub data Wait : Type 0 where
  failed : Wait
  interrupted : Wait
  ready : Ready → Wait

-- `channels_`; a key that `[]` made has no channel. `calls` are the successful calls of `epoll_ctl`, oldest
-- first, and `interest` are the `events_` of the channels.
pub record EpollManager : Type 0 where
  pub held : Bool
  pub channels : List (ℕ × Option ℕ)
  pub calls : List Ctl
  pub interest : ℕ → ℕ

unfoldable pub init : (ℕ → ℕ) → EpollManager
init interest = record { held = false; channels = []; calls = []; interest = interest }

unfoldable pub lock : EpollManager → Option EpollManager
lock e = locking e.held >> some (record e { held = true })

abbrev pub unlock : EpollManager → EpollManager
unlock e = record e { held = false }

-- The channel under a key, if there is one.
unfoldable pub find : ℕ → List (ℕ × Option ℕ) → Option ℕ
find fd [] = none
find fd (entry ∷ rest) = if entry.0 == fd then entry.1 else find fd rest

-- channels_[fd] = id
unfoldable pub assign : ℕ → ℕ → List (ℕ × Option ℕ) → List (ℕ × Option ℕ)
assign fd id [] = (fd, some id) ∷ []
assign fd id (entry ∷ rest) =
    if entry.0 == fd then (fd, some id) ∷ rest else entry ∷ assign fd id rest

-- find and erase
unfoldable pub erase : ℕ → List (ℕ × Option ℕ) → List (ℕ × Option ℕ)
erase fd [] = []
erase fd (entry ∷ rest) = if entry.0 == fd then rest else entry ∷ erase fd rest

unfoldable pub update_channel : EpollManager → ℕ → ℕ → Option EpollManager
update_channel e fd id =
    lock e >>= λ e'. some (unlock (record e' { channels = assign fd id e'.channels }))

unfoldable pub remove_channel : EpollManager → ℕ → Option EpollManager
remove_channel e fd = lock e >>= λ e'. some (unlock (record e' { channels = erase fd e'.channels }))

-- channels_[fd]->setEvents(events): without a channel, a null pointer is followed.
unfoldable pub set_events : EpollManager → ℕ → ℕ → Option EpollManager
set_events e fd events = find fd e.channels >>= λ id.
    some (record e { interest = λ x. if x == id then events else e.interest x })

-- The call that `control` makes; the struct is set to zero bytes, and then its `events`.
unfoldable pub request_of : EventCtl → ℕ → ℕ → Ctl
request_of op fd events = record { op = op; fd = fd; events = events; user_data = 0 }

-- What follows a call that succeeded, under the lock.
unfoldable pub after_ctl : EventCtl → EpollManager → ℕ → ℕ → Option EpollManager
after_ctl add e fd events = set_events e fd events
after_ctl mod_it e fd events = set_events e fd events
after_ctl del e fd events = remove_channel e fd

-- The part of `control` under the lock. `epoll_ctl calls call` says whether the call succeeds after `calls`.
-- The result is false for an error.
unfoldable pub control_locked :
    (List Ctl → Ctl → Bool) → EpollManager → ℕ → EventCtl → ℕ → Option (Bool × EpollManager)
control_locked epoll_ctl e fd op events =
    if epoll_ctl e.calls (request_of op fd events)
    then (after_ctl op (record e { calls = e.calls ++ request_of op fd events ∷ [] }) fd events
        >>= λ e'. some (true, unlock e'))
    else some (false, unlock e)

unfoldable pub control :
    (List Ctl → Ctl → Bool) → EpollManager → ℕ → EventCtl → ℕ → Option (Bool × EpollManager)
control epoll_ctl e fd op events = lock e >>= λ e1. control_locked epoll_ctl e1 fd op events

-- The manager and what the callbacks of the channels change besides.
pub record World {ℓ} (S : Type ℓ) : Type ℓ where
  pub manager : EpollManager
  pub client : S

-- The callbacks of a channel, if they are set; one that does not return gives `none`.
pub record Callbacks {ℓ} (S : Type ℓ) : Type ℓ where
  pub on_read : Option (World S → Option (World S))
  pub on_write : Option (World S → Option (World S))
  pub on_close : Option (World S → Option (World S))
  pub on_error : Option (World S → Option (World S))

-- A callback as it is called: nothing follows a call that does not return.
unfoldable pub strict {ℓ} :
    {S : Type ℓ}
    → Option (World S → Option (World S))
    → Option (Option (World S) → Option (World S))
strict none = none
strict (some cb) = some (λ o. o >>= cb)

unfoldable pub channel_of {ℓ} : {S : Type ℓ} → Callbacks S → Channel (Option (World S))
channel_of c = record {
  read_cb = strict c.on_read;
  write_cb = strict c.on_write;
  close_cb = strict c.on_close;
  error_cb = strict c.on_error;
  events = 0;
}

module _ {ℓ} {S : Type ℓ} (callbacks : ℕ → Callbacks S) where
  -- channels_[fd]->handleEvent(events)
  unfoldable pub dispatch_one : World S → ℕ × ℕ → Option (World S)
  dispatch_one w entry = find entry.0 w.manager.channels >>= λ id.
      (handle_with (channel_of (callbacks id)) entry.1 (some w) >>= λ result. result)

  unfoldable pub dispatch : World S → Ready → Option (World S)
  dispatch w [] = some w
  dispatch w (entry ∷ entries) = dispatch_one w entry >>= λ w'. dispatch w' entries

  abbrev pub release : World S → World S
  release w = record w { manager = unlock w.manager }

  unfoldable pub after_wait : Wait → World S → Option (Bool × World S)
  after_wait failed w = some (false, release w)
  after_wait interrupted w = some (true, release w)
  after_wait (ready entries) w = dispatch w entries >>= λ w'. some (true, release w')

  -- `epoll_wait calls` is its answer after the successful calls of `epoll_ctl`.
  unfoldable pub handle_event : (List Ctl → Wait) → World S → Option (Bool × World S)
  handle_event epoll_wait w =
      lock w.manager >>= λ e. after_wait (epoll_wait e.calls) (record w { manager = e })
