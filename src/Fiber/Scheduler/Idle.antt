-- ===== src/Fiber/Scheduler/Idle.antt =====
-- Whatever is done with a `FiberScheduler`, none of its fibers runs.
use mathlib.Core.Path.{subst}
use lp_net.Prelude.{
  ℕ, ◌≡◌, refl, sym, ap, List, [], ◌∷◌, Option, none, some, Bool, true, false, ◌==◌, if◌then◌else◌,
  ◌>>=◌, ◌>>◌, inl, inr,
}
use lp_net.RingBuffer.{locking}
use lp_net.Fiber.{Fiber}
use lp_net.Fiber.Scheduler.{
  FiberScheduler, invalid_fid, init, lock, unlock, find, entry_of, assign, submit, removed, remove,
  next_of, get_next_fiber, yield_locked, yield, resume_found, resume_locked, resume,
}
use lp_net.Fiber.Scheduler.Stuck.{lock_cases, resume_found-held}

-- What is done with a scheduler.
pub data Operation : Type 0 where
  submits : ℕ → Option Fiber → Operation
  removes : ℕ → Operation
  resumes : ℕ → Operation
  yields : Operation
  takes_next : Operation

-- No fiber is the current one and none waits in the queue.
pub record IsIdle (s : FiberScheduler) : Type 0 where
  pub no_current : s.curr_fid ≡ invalid_fid
  pub no_queue : s.queue ≡ []

module _ (yield_fiber : Fiber → Option Fiber) (resume_fiber : Fiber → Fiber) where
  unfoldable pub operate : FiberScheduler → Operation → Option FiberScheduler
  operate s (submits next_fid f) = submit next_fid s f >>= λ out. some out.1
  operate s (removes fid) = remove s fid >>= λ out. some out.1
  operate s (resumes fid) = resume yield_fiber resume_fiber s fid
  operate s yields = yield yield_fiber resume_fiber s
  operate s takes_next = get_next_fiber s >>= λ out. some out.1

  unfoldable pub operate_all : FiberScheduler → List Operation → Option FiberScheduler
  operate_all s [] = some s
  operate_all s (o ∷ os) = operate s o >>= λ s'. operate_all s' os

  -- A result of type `A` with a scheduler in it that is idle, if there is a result.
  Idle {ℓ} : {A : Type ℓ} → (A → FiberScheduler) → Option A → Type 0
  Idle part none = Unit
  Idle part (some x) = IsIdle (part x)

  Idle-bind {ℓ κ} :
      {A : Type ℓ} {B : Type κ} (part : A → FiberScheduler) (part' : B → FiberScheduler)
      (o : Option A) (f : A → Option B)
      → Idle part o
      → ((x : A) → IsIdle (part x) → Idle part' (f x))
      → Idle part' (o >>= f)
  unfolding Idle
  Idle-bind part part' none f h k = tt
  Idle-bind part part' (some x) f h k = k x h

  abbrev same : FiberScheduler → FiberScheduler
  same s = s

  lock-Idle : (s : FiberScheduler) → IsIdle s → Idle same (lock s)
  unfolding lock Idle
  lock-Idle s h = by_lock (locking s.held)
    where
      by_lock : (o : Option Bool) → Idle same (o >> some (record s { held = true }))
      by_lock none = tt
      by_lock (some b) = record { no_current = h.no_current; no_queue = h.no_queue }

  unlocked : (s : FiberScheduler) → IsIdle s → IsIdle (unlock s)
  unlocked s h = record { no_current = h.no_current; no_queue = h.no_queue }

  yield-Idle : (s : FiberScheduler) → IsIdle s → Idle same (yield yield_fiber resume_fiber s)
  unfolding yield yield_locked Idle
  yield-Idle s h = Idle-bind same same (lock s) _ (lock-Idle s h) (λ s1 k.
      Idle-bind same same (yield_locked yield_fiber resume_fiber s1) _
        (subst (Idle same)
          (sym (
            ap
              (λ b.
                if b
                then some s1
                else (entry_of (find s1.curr_fid s1.fibers) >>= λ f.
                    (yield_fiber f >>= λ f'. some (record s1 {
                      fibers = assign s1.curr_fid (some f') s1.fibers;
                      curr_fid = invalid_fid;
                    }))))
              {x = s1.curr_fid == invalid_fid} {y = true}
              (ap (λ n. n == invalid_fid) k.no_current)))
          k)
        (λ s2 l. unlocked s2 l))

  resume_found-Idle :
      (s : FiberScheduler) (fid : ℕ) (found : Option (Option Fiber))
      → s.held ≡ true
      → IsIdle s
      → Idle same (resume_found yield_fiber resume_fiber s fid found)
  unfolding Idle resume_found
  resume_found-Idle s fid none held h = h
  resume_found-Idle s fid (some f) held h =
      subst (Idle same) (sym (resume_found-held yield_fiber resume_fiber s fid f held)) tt

  resume_locked-Idle :
      (s : FiberScheduler) (fid : ℕ)
      → s.held ≡ true
      → IsIdle s
      → Idle same (resume_locked yield_fiber resume_fiber s fid)
  unfolding resume_locked Idle
  resume_locked-Idle s fid held h = by_test (s.curr_fid == fid)
    where
      by_test :
          (b : Bool)
          → Idle same (
              if b then some s else resume_found yield_fiber resume_fiber s fid (find fid s.fibers))
      by_test true = h
      by_test false = resume_found-Idle s fid (find fid s.fibers) held h

  resume-Idle :
      (s : FiberScheduler) (fid : ℕ) → IsIdle s → Idle same (resume yield_fiber resume_fiber s fid)
  unfolding resume Idle
  resume-Idle s fid h = elim (lock_cases yield_fiber resume_fiber s) [
    | inl stuck ↦ subst (λ o. Idle same (o >>= body)) (sym stuck) tt
    | inr locked ↦
        subst (λ o. Idle same (o >>= body)) (sym locked)
          (Idle-bind same same (resume_locked yield_fiber resume_fiber inside fid) _
            (resume_locked-Idle inside fid refl
              record { no_current = h.no_current; no_queue = h.no_queue })
            unlocked)
  ]
    where
      inside : FiberScheduler
      inside = record s { held = true }

      body : FiberScheduler → Option FiberScheduler
      body s1 = resume_locked yield_fiber resume_fiber s1 fid >>= λ s2. some (unlock s2)

  submit-Idle :
      (next_fid : ℕ) (s : FiberScheduler) (f : Option Fiber)
      → IsIdle s
      → Idle (λ out. out.1) (submit next_fid s f)
  unfolding submit Idle
  submit-Idle next_fid s f h =
      Idle-bind same (λ out. out.1) (lock s) _ (lock-Idle s h)
        (λ s' k. record { no_current = k.no_current; no_queue = k.no_queue })

  remove-Idle : (s : FiberScheduler) (fid : ℕ) → IsIdle s → Idle (λ out. out.1) (remove s fid)
  unfolding remove Idle removed
  remove-Idle s fid h =
      Idle-bind same (λ out. out.1) (lock s) _ (lock-Idle s h)
        (λ s' k. by_found s' k (find fid s'.fibers))
    where
      by_found :
          (s' : FiberScheduler)
          → IsIdle s'
          → (o : Option (Option Fiber)) → IsIdle (removed fid s' o).1
      by_found s' k none = record { no_current = k.no_current; no_queue = k.no_queue }
      by_found s' k (some f) = record { no_current = k.no_current; no_queue = k.no_queue }

  -- Of an idle scheduler, `getNextFiber` takes a null pointer and leaves it as it is.
  next-Idle : (s : FiberScheduler) → IsIdle s → next_of s s.queue ≡ (none, s)
  unfolding next_of
  next-Idle s h = ap (next_of s) h.no_queue

  get_next-Idle : (s : FiberScheduler) → IsIdle s → Idle (λ out. out.1) (get_next_fiber s)
  unfolding get_next_fiber Idle
  get_next-Idle s h =
      Idle-bind same (λ out. out.1) (lock s) _ (lock-Idle s h)
        (λ s' k. subst (λ out. IsIdle (unlock out.1)) (sym (next-Idle s' k)) (unlocked s' k))

  operate-Idle : (s : FiberScheduler) (o : Operation) → IsIdle s → Idle same (operate s o)
  unfolding operate Idle
  operate-Idle s (submits next_fid f) h =
      Idle-bind (λ out. out.1) same (submit next_fid s f) _ (submit-Idle next_fid s f h)
        (λ out k. k)
  operate-Idle s (removes fid) h =
      Idle-bind (λ out. out.1) same (remove s fid) _ (remove-Idle s fid h) (λ out k. k)
  operate-Idle s (resumes fid) h = resume-Idle s fid h
  operate-Idle s yields h = yield-Idle s h
  operate-Idle s takes_next h =
      Idle-bind (λ out. out.1) same (get_next_fiber s) _ (get_next-Idle s h) (λ out k. k)

  operate_all-Idle :
      (os : List Operation) (s : FiberScheduler) → IsIdle s → Idle same (operate_all s os)
  unfolding operate_all Idle
  operate_all-Idle [] s h = h
  operate_all-Idle (o ∷ os) s h =
      Idle-bind same same (operate s o) _ (operate-Idle s o h) (operate_all-Idle os)

  -- After any calls of `submit`, `remove`, `resume`, `yield` and `getNextFiber` on a new scheduler, all of which return, no fiber is
  -- the current one and none is in the queue.
  pub nothing_runs :
      (os : List Operation) (s : FiberScheduler)
      → operate_all init os ≡ some s
      → (s.curr_fid ≡ invalid_fid) × (s.queue ≡ [])
  unfolding init Idle
  nothing_runs os s ran =
      let idle : Idle same (some s) =
        subst (Idle same) ran
          (operate_all-Idle os init record { no_current = refl; no_queue = refl }) in
      (idle.no_current, idle.no_queue)
