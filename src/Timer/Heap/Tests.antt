-- ===== src/Timer/Heap/Tests.antt =====
-- Tests of the heap of timer tasks, and its theorems at a concrete heap.
use mathlib.Core.List.{Perm}
use lp_net.Prelude.{ℕ, zero, suc, ◌+◌, ◌≡◌, refl, arith, [], ◌∷◌, some, true, false}
use lp_net.Timer.{TimerTask, no_task}
use lp_net.Timer.Heap.{
  TimerTaskHeap, swap, pick_child, sift, index_from, index_of, remove_at, remove, add,
}
use lp_net.Timer.Heap.Order.{key, at, IsHeap}
use lp_net.Timer.Heap.Rise.{add_lem}
use lp_net.Timer.Heap.Removal.{remove_lem}

abbrev task : ℕ → ℕ → TimerTask
task id expired_time = record {
  duration = 5;
  expired_time = expired_time;
  cycled = false;
  callback = some id;
  id = id;
}

abbrev three : TimerTaskHeap
three = record { tasks = task 1 10 ∷ task 2 20 ∷ task 3 30 ∷ no_task ∷ []; capacity = 4; size = 3 }

-- The task with id 1 is removed, and the task with id 3 is lost instead.
remove_loses_another :
    remove three 1
    ≡ some
        (true, record three { tasks = task 2 20 ∷ task 1 10 ∷ task 3 30 ∷ no_task ∷ []; size = 2 })
unfolding remove index_of index_from remove_at sift pick_child swap
remove_loses_another = refl

in_order : IsHeap three.tasks three.size
unfolding key at
in_order zero p q = absurd (omega arith)
in_order (suc zero) p q = omega arith
in_order (suc (suc zero)) p q = omega arith
in_order (suc (suc (suc i))) p q = absurd (omega arith)

add_lem_example :
    (h' : TimerTaskHeap) × (add three (task 4 5) ≡ some (4, h'))
    × IsHeap h'.tasks h'.size
    × (h'.size ≡ 4)
    × Perm h'.tasks (task 1 10 ∷ task 2 20 ∷ task 3 30 ∷ task 4 5 ∷ [])
add_lem_example = add_lem three (task 4 5) in_order (omega arith)

remove_lem_example :
    (h' : TimerTaskHeap) × (remove three 2 ≡ some (true, h'))
    × (h'.size + 1 ≡ 3)
    × Perm h'.tasks three.tasks
remove_lem_example = remove_lem three 2 (omega arith) (omega arith)
