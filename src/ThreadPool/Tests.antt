-- ===== src/ThreadPool/Tests.antt =====
-- Schedules of a pool with one and two threads.
use lp_net.Prelude.{ℕ, ◌+◌, ◌≡◌, refl, arith, [], ◌∷◌, true, ◌==◌, if◌then◌else◌}
use lp_net.SafeQueue.{push, pop}
use lp_net.SafeQueue
use lp_net.ThreadPool.{
  Pc, finished, Pool, ready, can_join, after_pop, outside, joining, init, submitted, enter_loop,
  leave_loop, wake, take, call_task, set_running, Reach, here, next,
}
use lp_net.ThreadPool.Delivery.{count, all_held, Run, done, more, no_task_lost}
use lp_net.ThreadPool.Stop.{IsStuck, stop_never_returns}

-- The thread looks at `running_` before the constructor has set it, and leaves: the pool runs with no
-- thread that takes tasks.
pub too_early :
    (p : Pool ℕ) × Reach 1 (init 1 5) p
    × (p.running ≡ true)
    × (p.owner ≡ outside)
    × (p.threads 0 ≡ finished)
unfolding init
too_early = (
  _,
  next (next here (leave_loop 0 (omega arith) refl refl)) (set_running refl),
  refl,
  refl,
  refl,
)

-- A pool with one thread in which the number 7 was submitted, taken and called.
abbrev one_call : (p : Pool ℕ) × Run 1 (init 1 5) (7 ∷ []) p
unfolding init SafeQueue.init SafeQueue.empty ready push pop after_pop
one_call = (
  _,
  more
      (more
        (more
          (more
            (more (more done (set_running refl) refl) (enter_loop 0 (omega arith) refl refl) refl)
            (submitted 7) refl)
          (wake 0 (omega arith) refl refl) refl)
        (take 0 (omega arith) refl) refl)
      (call_task 0 7 (omega arith) refl) refl,
)

no_task_lost_example :
    count (λ x. x == 7) one_call.0.called
      + all_held (λ x. x == 7) 1 one_call.0.threads
      + count (λ x. x == 7) one_call.0.q.q
    ≡ 1
unfolding init SafeQueue.init SafeQueue.empty ready push pop after_pop
no_task_lost_example = no_task_lost (λ x. x == 7) 1 5 one_call.1

-- The owner has begun to stop a pool whose thread waits.
abbrev stopping : Pool ℕ
stopping = record {
  running = true;
  threads = λ i. if i == 0 then Pc.waiting else Pc.absent;
  q = SafeQueue.init 5;
  owner = joining 0;
  called = [];
}

stop_never_returns_example : IsStuck 0 (record stopping { q = (push (SafeQueue.init 5) 7).1 })
unfolding can_join
stop_never_returns_example =
    stop_never_returns 1 0 (omega arith)
      (record { at = 0; owner = refl; before = omega arith; live = refl; running = refl })
      (next here (submitted 7))
