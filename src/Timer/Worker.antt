-- ===== src/Timer/Worker.antt =====
-- `Timer`: the calls of its users, and what its thread does.
pub mod Calls
use lp_net.Prelude.{
  ℕ, ◌-◌, ◌^◌, List, Option, none, some, Bool, true, false, not, ltb, leb, ◌==◌, if◌then◌else◌,
  ◌>>=◌,
}
use lp_net.Timer.{TimerTask, run_task}
use lp_net.Timer.Heap.{TimerTaskHeap}
use lp_net.Timer.Heap
use lp_net.Timer.Table.{TimerTaskMap}
use lp_net.Timer.Table

-- What `tasks_` points to.
pub data Tasks : Type 0 where
  heap : TimerTaskHeap → Tasks
  table : TimerTaskMap → Tasks

-- The calls through `TimerTaskBase`.
pub top : Tasks → Option TimerTask
top (heap h) = Heap.top h
top (table m) = some (Table.top m)

pub pop : ℕ → Tasks → Option (Option TimerTask × Tasks)
pop now (heap h) = do (task, h') ← Heap.pop now h; some (task, heap h')
pop now (table m) = let (task, m') = Table.pop now m in some (task, table m')

pub add : Tasks → TimerTask → Option (ℕ × Tasks)
add (heap h) task = do (id, h') ← Heap.add h task; some (id, heap h')
add (table m) task = let (id, m') = Table.add m task in some (id, table m')

pub remove : Tasks → ℕ → Option (Bool × Tasks)
remove (heap h) id = do (found, h') ← Heap.remove h id; some (found, heap h')
remove (table m) id = let (found, m') = Table.remove m id in some (found, table m')

pub modify : ℕ → Tasks → ℕ → ℕ → Bool → Option (Bool × Tasks)
modify now (heap h) id duration cycled = do
  (found, h') ← Heap.modify now h id duration cycled
  some (found, heap h')
modify now (table m) id duration cycled =
    let (found, m') = Table.modify now m id duration cycled in some (found, table m')

-- `worker` says that the thread was started and not joined.
pub record Timer : Type 0 where
  pub tasks : Tasks
  pub running : Bool
  pub worker : Bool

pub init : ℕ → Bool → ℕ → Timer
init capacity is_heap garbage = record {
  tasks = if is_heap then heap (Heap.init capacity garbage) else table (Table.init capacity);
  running = false;
  worker = false;
}

-- getTimer; `none` inside is a task that was given no value.
pub get_timer : ℕ → Timer → Option (Option TimerTask × Timer)
get_timer now t = do (task, tasks) ← pop now t.tasks; some (task, record t { tasks = tasks })

-- addTimer: the id becomes a `bool`, and that a number.
pub add_timer : Timer → TimerTask → Option (ℕ × Timer)
add_timer t task = do
  (id, tasks) ← add t.tasks task
  some (if id == 0 then 0 else 1, record t { tasks = tasks })

pub remove_timer : Timer → ℕ → Option (Bool × Timer)
remove_timer t id = do (found, tasks) ← remove t.tasks id; some (found, record t { tasks = tasks })

pub modify_timer : ℕ → Timer → ℕ → ℕ → Bool → Option (Bool × Timer)
modify_timer now t id duration cycled = do
  (found, tasks) ← modify now t.tasks id duration cycled
  some (found, record t { tasks = tasks })

abbrev pub infinity : ℕ
infinity = 2 ^ 64 - 1

-- nextTimestamp
pub until : ℕ → TimerTask → ℕ
until now task =
    if task.expired_time == 0
    then infinity
    else if leb now task.expired_time
    then task.expired_time - now
    else 0

pub next_timestamp : ℕ → Timer → Option ℕ
next_timestamp now t = top t.tasks >>= λ task. some (until now task)

-- A thread that is assigned to one that was not joined ends the program.
pub start : Timer → Option Timer
start t =
    if t.running
    then some t
    else if t.worker
    then none
    else some (record t { worker = true; running = true })

pub stop : Timer → Timer
stop t = if not t.running then t else record t { worker = false; running = false }

-- The time that `run` sleeps.
pub pause : ℕ → ℕ
pause timestamp = if timestamp == infinity then 100 else timestamp

-- The callback of the task that was popped; a task that was given no value holds none.
pub call_task : ℕ → Option TimerTask → Option ℕ
call_task now none = none
call_task now (some task) = run_task now task

-- `run`, with the times at which it asks how long to sleep, pops, and calls: how long it slept, which
-- callback it called, and the timer.
pub run : ℕ → ℕ → ℕ → Timer → Option (ℕ × Option ℕ × Timer)
run asked popped called t =
    if t.running
    then (do
      timestamp ← next_timestamp asked t
      (task, t') ← get_timer popped t
      some (pause timestamp, call_task called task, t'))
    else some (0, none, t)
