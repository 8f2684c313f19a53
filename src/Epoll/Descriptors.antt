-- ===== src/Epoll/Descriptors.antt =====
-- Which channel an event reaches. `control` gives the kernel no descriptor with an event.
use lp_net.Prelude.{
  ℕ, ◌≡◌, refl, sym, ap, ◌∙◌, List, [], ◌∷◌, ◌++◌, ◌⊎◌, inl, inr, Option, none, some, Bool, true,
  false, if◌then◌else◌, ◌>>=◌, ◌>>◌,
}
use mathlib.Core.Path.{subst}
use lp_net.RingBuffer.{locking}
use lp_net.Channel.{handle_with}
use lp_net.Epoll.{
  EventCtl, add, mod_it, del, Ctl, Ready, ready, EpollManager, init, lock, unlock, find,
  update_channel, remove_channel, set_events, request_of, after_ctl, control_locked, control, World,
  Callbacks, dispatch_one, dispatch, release, channel_of, after_wait, handle_event,
}

-- A call of a method of the manager.
pub data Operation : Type 0 where
  controls : ℕ → EventCtl → ℕ → Operation
  updates : ℕ → ℕ → Operation
  removes : ℕ → Operation

unfoldable pub operate : (List Ctl → Ctl → Bool) → EpollManager → Operation → Option EpollManager
operate epoll_ctl e (controls fd op events) = control epoll_ctl e fd op events >>= λ out. some out.1
operate epoll_ctl e (updates fd id) = update_channel e fd id
operate epoll_ctl e (removes fd) = remove_channel e fd

unfoldable pub operate_all :
    (List Ctl → Ctl → Bool) → EpollManager → List Operation → Option EpollManager
operate_all epoll_ctl e [] = some e
operate_all epoll_ctl e (o ∷ os) = operate epoll_ctl e o >>= λ e'. operate_all epoll_ctl e' os

-- No call of `epoll_ctl` carried anything in `event.data`.
AllZero : List Ctl → Type 0
AllZero [] = Unit
AllZero (c ∷ calls) = (c.user_data ≡ 0) × AllZero calls

-- `d` was in `event.data` of one of the calls.
unfoldable pub IsData : ℕ → List Ctl → Type 0
IsData d [] = ⊥
IsData d (c ∷ calls) = (c.user_data ≡ d) ⊎ IsData d calls

-- What `epoll_wait` promises: each entry carries the `event.data` of a call of `epoll_ctl`.
unfoldable pub IsAnswer : List Ctl → Ready → Type 0
IsAnswer calls [] = Unit
IsAnswer calls (entry ∷ entries) = IsData entry.0 calls × IsAnswer calls entries

AllZero-append :
    (calls : List Ctl) (c : Ctl) → AllZero calls → c.user_data ≡ 0 → AllZero (calls ++ c ∷ [])
unfolding AllZero
AllZero-append [] c h k = (k, tt)
AllZero-append (x ∷ calls) c h k = (h.0, AllZero-append calls c h.1 k)

data_zero : (d : ℕ) (calls : List Ctl) → AllZero calls → IsData d calls → d ≡ 0
unfolding AllZero IsData
data_zero d [] h k = absurd k
data_zero d (c ∷ calls) h (inl e) = sym e ∙ h.0
data_zero d (c ∷ calls) h (inr k) = data_zero d calls h.1 k

-- A result that keeps the calls without data.
KeepsZero : Option EpollManager → Type 0
KeepsZero none = Unit
KeepsZero (some e) = AllZero e.calls

KeepsZero-bind :
    (o : Option EpollManager) (f : EpollManager → Option EpollManager)
    → KeepsZero o
    → ((e : EpollManager) → AllZero e.calls → KeepsZero (f e))
    → KeepsZero (o >>= f)
unfolding KeepsZero
KeepsZero-bind none f h k = tt
KeepsZero-bind (some e) f h k = k e h

KeepsZero-of {ℓ} :
    {B : Type ℓ} (o : Option B) (f : B → Option EpollManager)
    → ((x : B) → KeepsZero (f x))
    → KeepsZero (o >>= f)
unfolding KeepsZero
KeepsZero-of none f h = tt
KeepsZero-of (some x) f h = h x

lock-KeepsZero : (e : EpollManager) → AllZero e.calls → KeepsZero (lock e)
unfolding lock KeepsZero
lock-KeepsZero e h = KeepsZero-of (locking e.held) (λ b. some (record e { held = true })) (λ b. h)

update-KeepsZero :
    (e : EpollManager) (fd id : ℕ) → AllZero e.calls → KeepsZero (update_channel e fd id)
unfolding update_channel KeepsZero
update-KeepsZero e fd id h = KeepsZero-bind (lock e) _ (lock-KeepsZero e h) (λ e' k. k)

remove-KeepsZero : (e : EpollManager) (fd : ℕ) → AllZero e.calls → KeepsZero (remove_channel e fd)
unfolding remove_channel KeepsZero
remove-KeepsZero e fd h = KeepsZero-bind (lock e) _ (lock-KeepsZero e h) (λ e' k. k)

set_events-KeepsZero :
    (e : EpollManager) (fd events : ℕ) → AllZero e.calls → KeepsZero (set_events e fd events)
unfolding set_events KeepsZero
set_events-KeepsZero e fd events h = KeepsZero-of (find fd e.channels) _ (λ id. h)

after_ctl-KeepsZero :
    (op : EventCtl) (e : EpollManager) (fd events : ℕ)
    → AllZero e.calls
    → KeepsZero (after_ctl op e fd events)
unfolding after_ctl
after_ctl-KeepsZero add e fd events = set_events-KeepsZero e fd events
after_ctl-KeepsZero mod_it e fd events = set_events-KeepsZero e fd events
after_ctl-KeepsZero del e fd events = remove-KeepsZero e fd

module _ (epoll_ctl : List Ctl → Ctl → Bool) where
  -- The same of a result of `control`.
  KeepsOut : Option (Bool × EpollManager) → Type 0
  KeepsOut none = Unit
  KeepsOut (some (b, e)) = AllZero e.calls

  control_locked-KeepsOut :
      (e : EpollManager) (fd : ℕ) (op : EventCtl) (events : ℕ)
      → AllZero e.calls
      → KeepsOut (control_locked epoll_ctl e fd op events)
  unfolding control_locked KeepsOut KeepsZero request_of
  control_locked-KeepsOut e fd op events h = by_answer (epoll_ctl e.calls (request_of op fd events))
    where
      asked : EpollManager
      asked = record e { calls = e.calls ++ request_of op fd events ∷ [] }

      unlocked :
          (o : Option EpollManager)
          → KeepsZero o
          → KeepsOut (◌>>=◌ {B = Bool × EpollManager} o (λ e2. some (true, unlock e2)))
      unlocked none k = tt
      unlocked (some e2) k = k

      by_answer :
          (b : Bool)
          → KeepsOut (
              if b
              then (◌>>=◌ {B = Bool × EpollManager}
                  (after_ctl op asked fd events)
                  (λ e2. some (true, unlock e2)))
              else some (false, unlock e))
      by_answer true = unlocked (after_ctl op asked fd events) (
          after_ctl-KeepsZero op asked fd events
            (AllZero-append e.calls (request_of op fd events) h refl))
      by_answer false = h

  control-KeepsZero :
      (e : EpollManager) (fd : ℕ) (op : EventCtl) (events : ℕ)
      → AllZero e.calls
      → KeepsZero (control epoll_ctl e fd op events >>= λ out. some out.1)
  unfolding control KeepsZero KeepsOut
  control-KeepsZero e fd op events h = locked (lock e) (lock-KeepsZero e h)
    where
      result : (o : Option (Bool × EpollManager)) → KeepsOut o → KeepsZero (o >>= λ out. some out.1)
      result none k = tt
      result (some out) k = k

      locked :
          (o : Option EpollManager)
          → KeepsZero o
          → KeepsZero ((o >>= λ e1. control_locked epoll_ctl e1 fd op events) >>= λ out. some out.1)
      locked none k = tt
      locked (some e1) k =
          result (control_locked epoll_ctl e1 fd op events)
            (control_locked-KeepsOut e1 fd op events k)

  operate-KeepsZero :
      (e : EpollManager) (o : Operation) → AllZero e.calls → KeepsZero (operate epoll_ctl e o)
  unfolding operate
  operate-KeepsZero e (controls fd op events) h = control-KeepsZero e fd op events h
  operate-KeepsZero e (updates fd id) h = update-KeepsZero e fd id h
  operate-KeepsZero e (removes fd) h = remove-KeepsZero e fd h

  operate_all-KeepsZero :
      (os : List Operation) (e : EpollManager)
      → AllZero e.calls
      → KeepsZero (operate_all epoll_ctl e os)
  unfolding operate_all KeepsZero
  operate_all-KeepsZero [] e h = h
  operate_all-KeepsZero (o ∷ os) e h =
      KeepsZero-bind (operate epoll_ctl e o) _ (operate-KeepsZero e o h) (operate_all-KeepsZero os)

  init-KeepsZero :
      (interest : ℕ → ℕ) (os : List Operation) (e : EpollManager)
      → operate_all epoll_ctl (init interest) os ≡ some e
      → AllZero e.calls
  unfolding KeepsZero init AllZero
  init-KeepsZero interest os e ran =
      subst KeepsZero ran (operate_all-KeepsZero os (init interest) tt)

-- After any calls of the methods from the start on that leave no channel under descriptor 0, and with any answer of the kernel
-- that has an entry and gives each entry the data of a call of `epoll_ctl`, `handleEvent` fails: whatever
-- descriptors were registered, it looks for descriptor 0 and follows a null pointer.
pub any_event_faults {ℓ} :
    {S : Type ℓ} (callbacks : ℕ → Callbacks S) (client : S) (epoll_ctl : List Ctl → Ctl → Bool)
    (interest : ℕ → ℕ) (os : List Operation) (e : EpollManager) (fd events : ℕ) (entries : Ready)
    → operate_all epoll_ctl (init interest) os ≡ some e
    → find 0 e.channels ≡ none
    → IsAnswer e.calls ((fd, events) ∷ entries)
    → handle_event callbacks
        (λ calls. ready ((fd, events) ∷ entries))
        (record { manager = e; client = client })
      ≡ none
unfolding handle_event lock after_wait dispatch dispatch_one IsAnswer
any_event_faults {S} callbacks client epoll_ctl interest os e fd events entries ran missing answer =
    locked (locking e.held)
  where
    inside : World S
    inside = record { manager = record e { held = true }; client = client }

    lost : find fd e.channels ≡ none
    lost =
        ap (λ d. find d e.channels)
          (data_zero fd e.calls (init-KeepsZero epoll_ctl interest os e ran) answer.0)
        ∙ missing

    faults : after_wait callbacks (ready ((fd, events) ∷ entries)) inside ≡ none
    faults =
        ap {B = Option (Bool × World S)}
          (λ o.
            ◌>>=◌ {B = Bool × World S}
              ((o >>= λ id.
                  (handle_with (channel_of (callbacks id)) events (some inside) >>= λ result.
                  result))
                >>= λ w'. dispatch callbacks w' entries)
              (λ w'. some (true, release callbacks w')))
          lost

    locked :
        (o : Option Bool)
        → ((o >> some (record e { held = true })) >>= λ e'.
            after_wait callbacks
              (ready ((fd, events) ∷ entries))
              (record { manager = e'; client = client }))
          ≡ none
    locked none = refl
    locked (some b) = faults
