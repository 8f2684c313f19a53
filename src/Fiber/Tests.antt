-- ===== src/Fiber/Tests.antt =====
-- Tests of the fibers, and their theorems at concrete ones.
use lp_net.Prelude.{
  ◌>>=◌, ℕ, ◌≡◌, refl, arith, List, [], ◌∷◌, Option, none, some, false, length, replicate,
  length-replicate,
}
use lp_net.RingBuffer.{locking}
use lp_net.Fiber.{in_use, Fiber, suspend, running, init, save_stack, load_stack, resume}
use lp_net.Fiber.Stack.{IsValid, save_stack-load_stack}
use lp_net.Fiber.Scheduler.{
  FiberScheduler, invalid_fid, lock, find, assign, fiber_of, submit, yield, yield_locked,
}
use lp_net.Fiber.Scheduler
use lp_net.Fiber.Scheduler.Stuck.{resume_never_returns}
use lp_net.Fiber.Scheduler.Idle.{submits, yields, operate, operate_all, nothing_runs}

abbrev zeros : ℕ → List ℕ
zeros n = replicate n 0

length-zeros : (n : ℕ) → length (zeros n) ≡ n
length-zeros n = length-replicate n 0

-- A fiber whose buffer has two bytes.
abbrev two_kept : Fiber
two_kept = record { fid = 3; status = running; buffer = 5 ∷ 6 ∷ []; buf_size = 2; buf_cap = 2 }

save_stack-load_stack_example :
    (f' : Fiber) × (save_stack zeros two_kept (1 ∷ 7 ∷ 8 ∷ 9 ∷ []) 3 ≡ some f')
    × IsValid f'
    × (f'.status ≡ running)
    × (load_stack f' (2 ∷ 0 ∷ 0 ∷ 0 ∷ []) ≡ some (2 ∷ 7 ∷ 8 ∷ 9 ∷ []))
unfolding in_use
save_stack-load_stack_example =
    save_stack-load_stack zeros length-zeros two_kept (1 ∷ 7 ∷ 8 ∷ 9 ∷ []) (2 ∷ 0 ∷ 0 ∷ 0 ∷ []) 3
      record { allocated = omega arith } (omega arith) (omega arith) (omega arith)

-- A fiber that yields as soon as it is switched to.
abbrev yields_soon : List ℕ → Fiber → Fiber
yields_soon memory f = record f { status = suspend }

-- It yielded, and still `resume` says that it runs, so that the next `resume` does nothing.
says_running : (resume yields_soon (init 3) [] >>= λ f. some f.status) ≡ some running
unfolding resume init
says_running = refl

abbrev stays : Fiber → Option Fiber
stays f = some f

abbrev same : Fiber → Fiber
same f = f

-- A scheduler with one fiber.
abbrev one_fiber : FiberScheduler
one_fiber = record {
  held = false;
  curr_fid = invalid_fid;
  fibers = (0, some (init 0)) ∷ [];
  queue = [];
}

resume_never_returns_example : Scheduler.resume stays same one_fiber 0 ≡ none
unfolding find
resume_never_returns_example = resume_never_returns stays same one_fiber 0 (some (init 0)) refl refl

submitted : operate_all stays same Scheduler.init (submits 0 none ∷ yields ∷ []) ≡ some one_fiber
unfolding operate_all operate submit lock locking fiber_of assign Scheduler.init yield yield_locked
    init
submitted = refl

nothing_runs_example : (one_fiber.curr_fid ≡ invalid_fid) × (one_fiber.queue ≡ [])
nothing_runs_example = nothing_runs stays same (submits 0 none ∷ yields ∷ []) one_fiber submitted
