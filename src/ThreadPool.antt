-- ===== src/ThreadPool.antt =====
-- util/ThreadPool.h: the workers, the queue of tasks and the thread that owns the pool, as a step
-- relation. A task is any value; calling it is one step that writes it down. Waiting on the condition
-- ends at any time at which its predicate holds, so a lost notification is not seen.
pub mod Delivery
pub mod Stop
mod Tests
use lp_net.Prelude.{
  ℕ, zero, suc, ◌+◌, ◌≤◌, ◌<◌, ◌≡◌, List, [], ◌∷◌, ◌++◌, Option, none, some, Bool, true, false, not,
  ◌&&◌, ltb, ◌==◌, if◌then◌else◌,
}
use lp_net.SafeQueue.{SafeQueue, push, pop, empty}
use lp_net.SafeQueue

-- Where a worker stands in `work`: it was never started or was joined, it is about to test `running_`, it
-- waits, it is about to take a task, it has taken one, it has left the function.
pub data Pc (A : Type 0) : Type 0 where
  absent testing waiting taking finished : Pc A
  holding : A → Pc A

-- Where the owner stands: outside, in `start` or the constructor with the threads started and `running_`
-- not yet set, or in `stop` about to join a thread.
pub data Owner : Type 0 where
  outside starting : Owner
  joining : ℕ → Owner

-- `called` are the tasks that were called, oldest first.
pub record Pool (A : Type 0) : Type 0 where
  pub running : Bool
  pub threads : ℕ → Pc A
  pub q : SafeQueue A
  pub owner : Owner
  pub called : List A

-- The number of threads: no more than the hardware has.
pub pool_capacity : ℕ → ℕ → ℕ
pool_capacity capacity hardware = if ltb hardware capacity then hardware else capacity

abbrev pub all_started : {A : Type 0} → ℕ → ℕ → Pc A
all_started n i = if ltb i n then testing else absent

-- The constructor, before it sets `running_`.
pub init : {A : Type 0} → ℕ → ℕ → Pool A
init n queue_capacity = record {
  running = false;
  threads = all_started n;
  q = SafeQueue.init queue_capacity;
  owner = starting;
  called = [];
}

abbrev pub update : {A : Type 0} → (ℕ → A) → ℕ → A → ℕ → A
update f i a j = if j == i then a else f j

-- The predicate that the workers wait for.
pub ready : {A : Type 0} → Pool A → Bool
ready p = not (empty p.q) && p.running

-- What a worker does with the result of `pop`.
pub after_pop : {A : Type 0} → Option A → Pc A
after_pop none = testing
after_pop (some task) = holding task

-- What the owner does with thread `i` in `stop`: a thread that is not joinable is passed over, and one
-- that has left its function is joined.
pub can_join : {A : Type 0} → Pc A → Bool
can_join absent = true
can_join finished = true
can_join other = false

module _ {A : Type 0} (n : ℕ) where
  pub data Step (p : Pool A) : Pool A → Type 0 where
    -- submit, by any thread at any time
    submitted : (task : A) → Step p (record p { q = (push p.q task).1 })
    -- work
    enter_loop :
        (i : ℕ)
        → i < n
        → p.threads i ≡ testing
        → p.running ≡ true
        → Step p (record p { threads = update p.threads i waiting })
    leave_loop :
        (i : ℕ)
        → i < n
        → p.threads i ≡ testing
        → p.running ≡ false
        → Step p (record p { threads = update p.threads i finished })
    wake :
        (i : ℕ)
        → i < n
        → p.threads i ≡ waiting
        → ready p ≡ true
        → Step p (record p { threads = update p.threads i taking })
    take :
        (i : ℕ)
        → i < n
        → p.threads i ≡ taking
        → Step p
            (record p { threads = update p.threads i (after_pop (pop p.q).1); q = (pop p.q).2 })
    call_task :
        (i : ℕ) (task : A)
        → i < n
        → p.threads i ≡ holding task
        → Step p (record p { threads = update p.threads i testing; called = p.called ++ task ∷ [] })
    -- the constructor and start
    set_running : p.owner ≡ starting → Step p (record p { running = true; owner = outside })
    start_threads :
        p.owner ≡ outside
        → p.running ≡ false
        → ((i : ℕ) → i < n → p.threads i ≡ absent)
        → Step p (record p { threads = all_started n; owner = starting })
    -- stop
    begin_stop : p.owner ≡ outside → p.running ≡ true → Step p (record p { owner = joining 0 })
    join :
        (i : ℕ)
        → p.owner ≡ joining i
        → i < n
        → can_join (p.threads i) ≡ true
        → Step p (record p { threads = update p.threads i absent; owner = joining (i + 1) })
    end_stop : p.owner ≡ joining n → Step p (record p { running = false; owner = outside })

  pub data Reach (p : Pool A) : Pool A → Type 0 where
    here : Reach p p
    next : {s t : Pool A} → Reach p s → Step s t → Reach p t
