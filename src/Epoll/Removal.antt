-- ===== src/Epoll/Removal.antt =====
-- Removing a channel while the manager's mutex is held.
use lp_net.Prelude.{
  ℕ, ◌≡◌, refl, ap, ◌∙◌, List, [], ◌∷◌, ◌++◌, ◌⊎◌, inl, inr, Bool-cases, Option, none, some, Bool,
  true, false, if◌then◌else◌, ◌>>=◌, ◌>>◌,
}
use lp_net.RingBuffer.{locking}
use lp_net.Channel.{raised, event_in, event_out, event_hup, event_err, call, handle_with}
use lp_net.Epoll.{
  del, Ctl, Wait, ready, EpollManager, lock, unlock, find, erase, remove_channel, Callbacks, strict,
  channel_of, release, request_of, after_ctl, control_locked, control, World, dispatch_one,
  dispatch, after_wait, handle_event,
}

lock_cases : (e : EpollManager) → (lock e ≡ none) ⊎ (lock e ≡ some (record e { held = true }))
unfolding lock locking
lock_cases e = elim (Bool-cases e.held) [
  | inl held ↦ inl (ap (λ b. locking b >> some (record e { held = true })) held)
  | inr free ↦ inr (ap (λ b. locking b >> some (record e { held = true })) free)
]

remove-held : (e : EpollManager) (fd : ℕ) → e.held ≡ true → remove_channel e fd ≡ none
unfolding remove_channel lock locking
remove-held e fd held =
    ap
      (λ b. locking b >> some (record e { held = true }) >>= λ e'.
        some (unlock (record e' { channels = erase fd e'.channels })))
      held

-- Whether its mutex is free or held, `control` with DEL never returns, if the kernel accepts the call: it calls
-- `removeChannel` with the mutex held.
pub delete_never_returns :
    (epoll_ctl : List Ctl → Ctl → Bool) (e : EpollManager) (fd events : ℕ)
    → epoll_ctl e.calls (request_of del fd events) ≡ true
    → control epoll_ctl e fd del events ≡ none
unfolding control control_locked after_ctl
delete_never_returns epoll_ctl e fd events accepted = elim (lock_cases e) [
  | inl stuck ↦ ap (λ o. o >>= body) stuck
  | inr locked ↦
      ap (λ o. o >>= body) locked
      ∙ ap
          (λ b.
            if b
            then (remove_channel asked fd >>= λ e2. some (true, unlock e2))
            else some (false, unlock e))
          accepted
      ∙ ap (λ o. o >>= λ e2. some (true, unlock e2)) (remove-held asked fd refl)
]
  where
    asked : EpollManager
    asked = record e { held = true; calls = e.calls ++ request_of del fd events ∷ [] }

    body : EpollManager → Option (Bool × EpollManager)
    body e1 =
        if epoll_ctl e1.calls (request_of del fd events)
        then (remove_channel (record e1 { calls = e1.calls ++ request_of del fd events ∷ [] }) fd
            >>= λ e2. some (true, unlock e2))
        else some (false, unlock e1)

module _ {ℓ} {S : Type ℓ} (callbacks : ℕ → Callbacks S) where
  last-none :
      (h e : Bool) (x y : Option (World S → Option (World S)))
      → ((if h then call (strict x) none else (if e then call (strict y) none else some none))
          >>= λ result. result)
        ≡ none
  unfolding call strict
  last-none true e none y = refl
  last-none true e (some f) y = refl
  last-none false true x none = refl
  last-none false true x (some f) = refl
  last-none false false x y = refl

  later-none :
      (b h e : Bool) (f x y : Option (World S → Option (World S)))
      → ((if b then call (strict f) none else some none)
          >>= (λ s. if h then call (strict x) s else (if e then call (strict y) s else some s))
          >>= λ result. result)
        ≡ none
  unfolding call strict
  later-none true h e none x y = refl
  later-none true h e (some f) x y = last-none h e x y
  later-none false h e f x y = last-none h e x y

  read-stuck :
      (c : Callbacks S) (cb : World S → Option (World S)) (events : ℕ) (w : World S)
      → c.on_read ≡ some cb
      → raised events event_in ≡ true
      → cb w ≡ none
      → (handle_with (channel_of c) events (some w) >>= λ result. result) ≡ none
  unfolding handle_with channel_of call strict
  read-stuck c cb events w set reads stuck =
      ap
        (λ b.
          ((if b then call (strict c.on_read) (some w) else some (some w)) >>= tail) >>= λ result.
          result)
        reads
      ∙ ap (λ o. (call (strict o) (some w) >>= tail) >>= λ result. result) set
      ∙ ap (λ o. tail o >>= λ result. result) stuck
      ∙ later-none (raised events event_out) (raised events event_hup) (raised events event_err)
          c.on_write c.on_close c.on_error
    where
      tail : Option (World S) → Option (Option (World S))
      tail s1 = (if raised events event_out then call (strict c.on_write) s1 else some s1) >>= (λ s.
          if raised events event_hup
          then call (strict c.on_close) s
          else (if raised events event_err then call (strict c.on_error) s else some s))

  -- If a read callback removes a channel of the manager that calls it, then the round in which its event
  -- is the first never returns: `handleEvent` holds the mutex during the callbacks.
  pub removal_in_callback :
      (epoll_wait : List Ctl → Wait) (w : World S) (fd events gone id : ℕ) (entries : List (ℕ × ℕ))
      (cb : World S → Option (World S)) (rest : World S → EpollManager → Option (World S))
      → epoll_wait w.manager.calls ≡ ready ((fd, events) ∷ entries)
      → find fd w.manager.channels ≡ some id
      → raised events event_in ≡ true
      → (callbacks id).on_read ≡ some cb
      → ((w' : World S) → cb w' ≡ remove_channel w'.manager gone >>= rest w')
      → handle_event callbacks epoll_wait w ≡ none
  unfolding handle_event after_wait dispatch dispatch_one
  removal_in_callback epoll_wait w fd events gone id entries cb rest answer known reads set
        removes =
      elim (lock_cases w.manager) [
        | inl stuck ↦ ap (λ o. o >>= waiting) stuck
        | inr locked ↦
            ap (λ o. o >>= waiting) locked
            ∙ ap (λ a. after_wait callbacks a inside) answer
            ∙ ap
                (λ o. next (
                  o >>= λ found.
                  handle_with (channel_of (callbacks found)) events (some inside) >>= λ result.
                  result))
                known
            ∙ ap next (
                read-stuck (callbacks id) cb events inside set reads (
                  removes inside
                  ∙ ap (λ o. o >>= rest inside) (remove-held inside.manager gone refl)))
      ]
    where
      inside : World S
      inside = record w { manager = record w.manager { held = true } }

      waiting : EpollManager → Option (Bool × World S)
      waiting e = after_wait callbacks (epoll_wait e.calls) (record w { manager = e })

      next : Option (World S) → Option (Bool × World S)
      next o =
          (o >>= λ w'. dispatch callbacks w' entries) >>= λ w'. some (true, release callbacks w')
