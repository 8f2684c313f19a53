-- ===== src/Timer/Heap.antt =====
-- `TimerTaskHeap`: a binary heap in an array of `capacity` tasks, of which the first `size` are in it.
pub mod Order
pub mod Rise
pub mod Removal
mod Tests
use lp_net.Prelude.{
  ℕ, zero, suc, ◌+◌, ◌-◌, ◌*◌, ◌/◌, List, Option, none, some, Bool, true, false, not, ◌&&◌, ltb,
  leb, ◌==◌, if◌then◌else◌, ◌>>=◌, load, store, replicate, sub_size,
}
use lp_net.Timer.{TimerTask, no_task, set_expired_time, set_cycle, earlier, later, same_task}

pub record TimerTaskHeap : Type 0 where
  pub tasks : List TimerTask
  pub capacity : ℕ
  pub size : ℕ

-- The constructor gives `size_` no value: it is whatever was there.
pub init : ℕ → ℕ → TimerTaskHeap
init capacity garbage = record {
  tasks = replicate capacity no_task;
  capacity = capacity;
  size = garbage;
}

pub top : TimerTaskHeap → Option TimerTask
top h = if h.capacity == 0 then some no_task else load h.tasks 0

pub swap : List TimerTask → ℕ → ℕ → Option (List TimerTask)
swap xs x y = do tmp ← load xs x; other ← load xs y; xs' ← store xs x other; store xs' y tmp

-- The loop of `moveUp` from `cur` on, with the rounds that are left.
pub move_up : ℕ → List TimerTask → ℕ → Option (List TimerTask)
move_up zero xs cur = none
move_up (suc fuel) xs zero = some xs
move_up (suc fuel) xs (suc n) = do
  a ← load xs (suc n)
  b ← load xs (n / 2)
  let risen = swap xs (suc n) (n / 2) >>= λ xs'. move_up fuel xs' (n / 2)
  if earlier a b then risen else some xs

-- The child that `moveDown` and `remove` look at: the earlier of the two, if both are in the heap.
pub pick_child : List TimerTask → ℕ → ℕ → Option ℕ
pick_child xs size child =
    if ltb (child + 1) size
    then (do
      a ← load xs child
      b ← load xs (child + 1)
      some (if later a b then child + 1 else child))
    else some child

-- The loop of `moveDown`, which never moves `cur`.
pub move_down : ℕ → List TimerTask → ℕ → ℕ → ℕ → Option (List TimerTask)
move_down zero xs size cur child = none
move_down (suc fuel) xs size cur child =
    if ltb child size
    then (do
      child' ← pick_child xs size child
      a ← load xs child'
      b ← load xs cur
      let sunk = swap xs child' cur >>= λ xs'. move_down fuel xs' size cur child'
      if earlier a b then sunk else some xs)
    else some xs

-- The loop of `indexOf(id)` from `pa` on; `none` is the index -1.
pub index_from : List TimerTask → ℕ → ℕ → ℕ → Option (Option ℕ)
index_from xs id pa zero = some none
index_from xs id pa (suc rounds) = do
  a ← load xs pa
  let rest = index_from xs id (suc pa) rounds
  if a.id == id then some (some pa) else rest

pub index_of : TimerTaskHeap → ℕ → Option (Option ℕ)
index_of h id = index_from h.tasks id 0 h.size

-- The loop of `remove`: the task moves down, always to the place of the earlier child.
pub sift : ℕ → List TimerTask → ℕ → ℕ → Option (List TimerTask)
sift zero xs size pa = none
sift (suc fuel) xs size pa =
    if ltb (pa * 2 + 1) size
    then (do
      child ← pick_child xs size (pa * 2 + 1)
      xs' ← swap xs child pa
      sift fuel xs' size child)
    else some xs

pub remove_at : TimerTaskHeap → Option ℕ → Option (Bool × TimerTaskHeap)
remove_at h none = some (false, h)
remove_at h (some idx) = do
  xs ← sift (suc h.size) h.tasks h.size idx
  some (true, record h { tasks = xs; size = sub_size h.size 1 })

pub remove : TimerTaskHeap → ℕ → Option (Bool × TimerTaskHeap)
remove h id = index_of h id >>= remove_at h

pub add : TimerTaskHeap → TimerTask → Option (ℕ × TimerTaskHeap)
add h task = do
  xs ← store h.tasks h.size task
  xs' ← move_up (suc h.size) xs h.size
  some (task.id, record h { tasks = xs'; size = h.size + 1 })

-- pop() and pop(task), which also gives the task.
pub drop_first : TimerTaskHeap → Option (Bool × TimerTaskHeap)
drop_first h =
    if h.size == 0
    then some (false, h)
    else (do first ← load h.tasks 0; (_, h') ← remove h first.id; some (true, h'))

pub pop : ℕ → TimerTaskHeap → Option (Option TimerTask × TimerTaskHeap)
pop now h = if h.size == 0 then some (none, h) else (do
  first ← load h.tasks 0
  (_, h') ← remove h first.id
  let again = set_expired_time now first.duration first
  let renewed = add h' again >>= λ out. some (some again, out.1)
  if first.cycled then renewed else some (some first, h'))

-- What `modify` does once the task stands in the array.
pub settle : TimerTaskHeap → List TimerTask → ℕ → Option (List TimerTask)
settle h xs zero = move_down (suc h.size) xs h.size 0 1
settle h xs (suc n) = do
  a ← load xs (n / 2)
  b ← load xs (suc n)
  let down = move_down (suc h.size) xs h.size (suc n) (suc n * 2 + 1)
  let up = move_up (suc (suc n)) xs (suc n)
  if earlier a b then down else up

pub modify_at : ℕ → TimerTaskHeap → ℕ → Bool → Option ℕ → Option (Bool × TimerTaskHeap)
modify_at now h duration cycled none = some (false, h)
modify_at now h duration cycled (some idx) = do
  task ← load h.tasks idx
  xs ← store h.tasks idx (set_cycle cycled (set_expired_time now duration task))
  xs' ← settle h xs idx
  some (true, record h { tasks = xs' })

pub modify : ℕ → TimerTaskHeap → ℕ → ℕ → Bool → Option (Bool × TimerTaskHeap)
modify now h id duration cycled = index_of h id >>= modify_at now h duration cycled

-- The loop of `indexOf(task)`: only the leftmost branch is searched.
pub branch_from : ℕ → List TimerTask → ℕ → TimerTask → ℕ → Option (Option ℕ)
branch_from zero xs size task cur = none
branch_from (suc fuel) xs size task cur =
    if ltb cur size
    then (do
      a ← load xs cur
      let rest = branch_from fuel xs size task (cur * 2 + 1)
      if same_task a task then some (some cur) else if later a task then some none else rest)
    else some none

pub index_of_task : TimerTaskHeap → TimerTask → Option (Option ℕ)
index_of_task h task = branch_from (suc h.size) h.tasks h.size task 0
