-- ===== src/Timer/Tests.antt =====
-- Tests of the timers, and their theorems at concrete tasks.
use mathlib.Core.List.{Perm}
use lp_net.Prelude.{ℕ, ◌+◌, ◌≡◌, refl, arith, List, [], ◌∷◌, none, some, true, false}
use lp_net.Timer.{TimerTask}
use lp_net.Timer.Table.{init, assign, hash, before}
use lp_net.Timer.Table.Order.{add_all, pop_all, IsSorted, add_all-pop_all}
use lp_net.Timer.Worker.{run, pause, until}
use lp_net.Timer.Worker.Calls.{over, waiting, run-once, run-cyclic}

abbrev task : ℕ → ℕ → TimerTask
task id expired_time = record {
  duration = 5;
  expired_time = expired_time;
  cycled = false;
  callback = some id;
  id = id;
}

-- Each of two tasks that expire together stands before the other.
no_order :
    (before (hash (task 1 10)) (hash (task 2 10)) ≡ true)
    × (before (hash (task 2 10)) (hash (task 1 10)) ≡ true)
no_order = (refl, refl)

add_all-pop_all_example :
    (ts : List TimerTask) × (pop_all 3 0 (add_all (init 8) (task 1 30 ∷ task 2 10 ∷ task 3 20 ∷ []))
      ≡ (ts, init 8))
    × IsSorted ts
    × Perm ts (task 1 30 ∷ task 2 10 ∷ task 3 20 ∷ [])
add_all-pop_all_example =
    add_all-pop_all 8 0 (task 1 30 ∷ task 2 10 ∷ task 3 20 ∷ [])
      ((refl, refl, (refl, refl, tt)), ((refl, refl, tt), (tt, tt))) (refl, (refl, (refl, tt)))

run-once_example :
    (slept : ℕ) × (8 + slept ≡ 10)
    × (run 8 10 11 (waiting 4 (task 1 10) []) ≡ some (slept, some 1, over 4 (task 1 10) [] []))
run-once_example =
    run-once 4 (task 1 10) [] 8 10 11 refl (omega arith) (omega arith) (omega arith) (omega arith)

abbrev cyclic : TimerTask
cyclic = record (task 1 10) { cycled = true }

run-cyclic_example :
    run 8 10 11 (waiting 4 cyclic [])
    ≡ some (
      pause (until 8 cyclic),
      none,
      over 4 cyclic [] (assign (1, 15) (record cyclic { expired_time = 15 }) []),
    )
run-cyclic_example = run-cyclic 4 cyclic [] 8 10 11 refl (omega arith) (omega arith)
