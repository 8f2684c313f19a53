-- ===== src/Fiber/Scheduler/Stuck.antt =====
-- What a `FiberScheduler` can do with its fibers: `resume` calls `yield` with the mutex held.
use lp_net.Prelude.{
  ℕ, ◌≡◌, refl, ap, ◌∙◌, Option, none, some, true, false, ◌==◌, if◌then◌else◌, ◌>>=◌, ◌>>◌,
  Bool-cases, inl, inr, ◌⊎◌,
}
use lp_net.RingBuffer.{locking}
use lp_net.Fiber.{Fiber}
use lp_net.Fiber.Scheduler.{
  FiberScheduler, lock, unlock, find, assign, yield_locked, yield, resume_found, resume_locked,
  resume,
}

module _ (yield_fiber : Fiber → Option Fiber) (resume_fiber : Fiber → Fiber) where
  yield-held : (s : FiberScheduler) → s.held ≡ true → yield yield_fiber resume_fiber s ≡ none
  unfolding yield lock locking
  yield-held s held =
      ap
        (λ b. (locking b >> some (record s { held = true })) >>= λ s1.
          (yield_locked yield_fiber resume_fiber s1 >>= λ s2. some (unlock s2)))
        held

  pub resume_found-held :
      (s : FiberScheduler) (fid : ℕ) (f : Option Fiber)
      → s.held ≡ true
      → resume_found yield_fiber resume_fiber s fid (some f) ≡ none
  unfolding resume_found
  resume_found-held s fid f held =
      ap
        (λ o. o >>= λ s'.
          (f >>= λ fiber. some (record s' {
            fibers = assign fid (some (resume_fiber fiber)) s'.fibers;
            curr_fid = fid;
          })))
        (yield-held s held)

  pub lock_cases :
      (s : FiberScheduler) → (lock s ≡ none) ⊎ (lock s ≡ some (record s { held = true }))
  unfolding lock locking
  lock_cases s = elim (Bool-cases s.held) [
    | inl held ↦ inl (ap (λ b. locking b >> some (record s { held = true })) held)
    | inr free ↦ inr (ap (λ b. locking b >> some (record s { held = true })) free)
  ]

  -- `resume` of a fiber that the scheduler knows and that is not the current one never returns.
  pub resume_never_returns :
      (s : FiberScheduler) (fid : ℕ) (f : Option Fiber)
      → find fid s.fibers ≡ some f
      → (s.curr_fid == fid) ≡ false
      → resume yield_fiber resume_fiber s fid ≡ none
  unfolding resume resume_locked
  resume_never_returns s fid f known not_current = elim (lock_cases s) [
    | inl stuck ↦
        ap
          (λ o.
            o >>= λ s1. (resume_locked yield_fiber resume_fiber s1 fid >>= λ s2. some (unlock s2)))
          stuck
    | inr locked ↦
        ap
          (λ o.
            o >>= λ s1. (resume_locked yield_fiber resume_fiber s1 fid >>= λ s2. some (unlock s2)))
          locked
        ∙ ap (λ o. o >>= λ s2. some (unlock s2))
            (ap
                (λ b.
                  if b
                  then some (record s { held = true })
                  else resume_found yield_fiber resume_fiber (record s { held = true }) fid
                      (find fid s.fibers))
                not_current
              ∙ ap (resume_found yield_fiber resume_fiber (record s { held = true }) fid) known
              ∙ resume_found-held (record s { held = true }) fid f refl)
  ]
