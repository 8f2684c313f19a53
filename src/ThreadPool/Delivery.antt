-- ===== src/ThreadPool/Delivery.antt =====
-- No task of a `ThreadPool` is lost or called twice.
use lp_net.Prelude.{
  ℕ, zero, suc, ◌+◌, ◌≤◌, ◌<◌, ◌≡◌, refl, ap, ◌∙◌, arith, List, [], ◌∷◌, ◌++◌, Bool, true,
  if◌then◌else◌, dec_lt,
}
use lp_net.SafeQueue.{SafeQueue, push, pop, full}
use lp_net.SafeQueue
use lp_net.ThreadPool.{
  Pc, absent, testing, waiting, taking, holding, finished, Pool, update, all_started, init,
  after_pop, can_join, Step, submitted, enter_loop, leave_loop, wake, take, call_task, set_running,
  start_threads, begin_stop, join, end_stop,
}

-- The tasks of a list that a test picks out.
abbrev pub count : {A : Type 0} → (A → Bool) → List A → ℕ
count w [] = 0
count w (x ∷ xs) = (if w x then 1 else 0) + count w xs

count-append :
    {A : Type 0} (w : A → Bool) (xs ys : List A) → count w (xs ++ ys) ≡ count w xs + count w ys
count-append w [] ys = omega arith
count-append w (x ∷ xs) ys = omega (arith, count-append w xs ys)

-- The task that a thread holds.
abbrev pub held : {A : Type 0} → (A → Bool) → Pc A → ℕ
held w (holding task) = if w task then 1 else 0
held w other = 0

-- The tasks that the first `n` threads hold.
pub all_held : {A : Type 0} → (A → Bool) → ℕ → (ℕ → Pc A) → ℕ
all_held w zero threads = 0
all_held w (suc n) threads = all_held w n threads + held w (threads n)

all_held-update_out :
    {A : Type 0} (w : A → Bool) (n i : ℕ) (threads : ℕ → Pc A) (pc : Pc A)
    → n ≤ i
    → all_held w n (update threads i pc) ≡ all_held w n threads
unfolding all_held
all_held-update_out w zero i threads pc h = refl
all_held-update_out w (suc n) i threads pc h =
    ground (arith, all_held-update_out w n i threads pc (omega arith))

all_held-update :
    {A : Type 0} (w : A → Bool) (n i : ℕ) (threads : ℕ → Pc A) (pc : Pc A)
    → i < n
    → all_held w n (update threads i pc) + held w (threads i) ≡ all_held w n threads + held w pc
unfolding all_held
all_held-update w zero i threads pc h = absurd (omega arith)
all_held-update w (suc n) i threads pc h = elim (dec_lt i n) [
  | yes below ↦ ground (arith, all_held-update w n i threads pc below)
  | no last ↦ ground (arith, all_held-update_out w n i threads pc)
]

all_held_none :
    {A : Type 0} (w : A → Bool) (n : ℕ) (threads : ℕ → Pc A)
    → ((i : ℕ) → i < n → held w (threads i) ≡ 0)
    → all_held w n threads ≡ 0
unfolding all_held
all_held_none w zero threads h = refl
all_held_none w (suc n) threads h =
    omega (arith, all_held_none w n threads (λ i b. h i (omega arith)), h n (omega arith))

module _ {A : Type 0} (w : A → Bool) (n : ℕ) where
  -- The tasks in the pool: called, held by a thread, or in the queue.
  pub inside : Pool A → ℕ
  inside p = count w p.called + all_held w n p.threads + count w p.q.q

  moved :
      (p : Pool A) (i : ℕ) (pc : Pc A)
      → i < n
      → held w (p.threads i) ≡ held w pc
      → inside (record p { threads = update p.threads i pc }) ≡ inside p
  unfolding inside
  moved p i pc below same = omega (arith, all_held-update w n i p.threads pc below, same)

  pop_counts :
      (capacity : ℕ) (xs : List A)
      → let out = pop (record { capacity = capacity; q = xs }) in
        held w (after_pop out.1) + count w out.2.q ≡ count w xs
  unfolding pop after_pop
  pop_counts capacity [] = refl
  pop_counts capacity (x ∷ xs) = refl

-- The tasks that a step puts into the queue.
abbrev pub accepted : {A : Type 0} {n : ℕ} {p q : Pool A} → Step n p q → List A
accepted {p} (submitted task) = if full p.q then [] else task ∷ []
accepted other = []

-- A run of the pool, with the tasks that were put into the queue.
pub data Run {A : Type 0} (n : ℕ) (p : Pool A) : List A → Pool A → Type 0 where
  done : Run n p [] p
  more :
      {s t : Pool A} {xs ys : List A}
      → Run n p xs s
      → (st : Step n s t) → ys ≡ xs ++ accepted st
      → Run n p ys t

module _ {A : Type 0} (w : A → Bool) (n : ℕ) where
  all_idle : (i : ℕ) → held w (all_started {A = A} n i) ≡ 0
  all_idle i = ground arith

  joined : (pc : Pc A) → can_join pc ≡ true → held w pc ≡ 0
  unfolding can_join
  joined absent e = refl
  joined finished e = refl
  joined testing e = refl
  joined waiting e = refl
  joined taking e = refl
  joined (holding task) e = cc

  push_counts :
      (p : Pool A) (task : A)
      → inside w n (record p { q = (push p.q task).1 })
        ≡ inside w n p + count w (if full p.q then [] else task ∷ [])
  unfolding inside push
  push_counts p task = ground (arith, count-append w p.q.q (task ∷ []))

  Step-inside :
      {p q : Pool A} (st : Step n p q) → inside w n q ≡ inside w n p + count w (accepted st)
  unfolding inside
  Step-inside {p} (submitted task) = push_counts p task
  Step-inside {p} (enter_loop j b e r) = moved w n p j waiting b (ap (held w) e) ∙ omega arith
  Step-inside {p} (leave_loop j b e r) = moved w n p j finished b (ap (held w) e) ∙ omega arith
  Step-inside {p} (wake j b e r) = moved w n p j taking b (ap (held w) e) ∙ omega arith
  Step-inside {p} (take j b e) = omega (
    arith,
    all_held-update w n j p.threads (after_pop (pop p.q).1) b,
    ap (held w) e,
    pop_counts w n p.q.capacity p.q.q,
  )
  Step-inside {p} (call_task j task b e) = omega (
    arith,
    all_held-update w n j p.threads testing b,
    ap (held w) e,
    count-append w p.called (task ∷ []),
  )
  Step-inside (set_running o) = omega arith
  Step-inside {p} (start_threads o r a) = omega (
    arith,
    all_held_none w n p.threads (λ i b. ap (held w) (a i b)),
    all_held_none w n (all_started {A = A} n) (λ i b. all_idle i),
  )
  Step-inside (begin_stop o r) = omega arith
  Step-inside {p} (join j o h e) =
      omega (arith, all_held-update w n j p.threads absent h, joined (p.threads j) e)
  Step-inside (end_stop o) = omega arith

  Run-inside :
      {p q : Pool A} {xs : List A} → Run n p xs q → inside w n q ≡ inside w n p + count w xs
  Run-inside done = omega arith
  Run-inside (more {xs} r st e) =
      Step-inside st ∙ omega (arith, Run-inside r, count-append w xs (accepted st), ap (count w) e)

  inside-init : (capacity : ℕ) → inside w n (init {A = A} n capacity) ≡ 0
  unfolding inside init SafeQueue.init
  inside-init capacity =
      omega (arith, all_held_none w n (all_started {A = A} n) (λ i b. all_idle i))

  -- Whatever the threads of a new pool do and in whatever order, each task that the queue took in is in
  -- exactly one place: called, held by a thread that is about to call it, or still in the queue. Tasks are
  -- told apart by any test of theirs.
  pub no_task_lost :
      (capacity : ℕ) {xs : List A} {p : Pool A}
      → Run n (init n capacity) xs p
      → count w p.called + all_held w n p.threads + count w p.q.q ≡ count w xs
  unfolding inside
  no_task_lost capacity r = Run-inside r ∙ omega (arith, inside-init capacity)
