-- ===== src/ThreadPool/Stop.antt =====
-- `stop` waits for workers that wait for tasks.
use lp_net.Prelude.{
  ℕ, ◌+◌, ◌≤◌, ◌<◌, ◌≡◌, ◌≢◌, refl, ap, ◌∙◌, sym, arith, Option, none, some, Bool, true, false,
  ◌==◌,
}
use lp_net.SafeQueue.{pop}
use lp_net.ThreadPool.{
  Pc, testing, waiting, taking, joining, Pool, update, after_pop, can_join, Step, submitted,
  enter_loop, leave_loop, wake, take, call_task, set_running, start_threads, begin_stop, join,
  end_stop, Reach, here, next,
}

-- The owner is in `stop`, has not got past thread `i`, and thread `i` has not left its loop.
pub record IsStuck {A : Type 0} (i : ℕ) (p : Pool A) : Type 0 where
  pub at : ℕ
  pub owner : p.owner ≡ joining at
  pub before : at ≤ i
  pub live : can_join (p.threads i) ≡ false
  pub running : p.running ≡ true

after_pop_live : {A : Type 0} (o : Option A) → can_join (after_pop o) ≡ false
unfolding can_join after_pop
after_pop_live none = refl
after_pop_live (some task) = refl

joining_inj : {a b : ℕ} → joining a ≡ joining b → a ≡ b
joining_inj e = cc

not_true : {b : Bool} → b ≡ true → b ≡ false → ⊥
not_true h k = cc

-- A thread that goes on in its loop leaves the owner where it is.
goes_on :
    {A : Type 0} (i j : ℕ) (pc : Pc A) (p q : Pool A)
    → can_join pc ≡ false
    → q.owner ≡ p.owner
    → q.running ≡ p.running
    → q.threads i ≡ update p.threads j pc i
    → IsStuck i p
    → IsStuck i q
goes_on i j pc p q live same_owner same_running moved s = record {
  at = s.at;
  owner = same_owner ∙ s.owner;
  before = s.before;
  live = ap can_join moved ∙ ground (arith, s.live);
  running = same_running ∙ s.running;
}

module _ {A : Type 0} (n : ℕ) where
  Step-IsStuck : (i : ℕ) → i < n → {p q : Pool A} → Step n p q → IsStuck i p → IsStuck i q
  unfolding can_join after_pop
  Step-IsStuck i inside {p} (submitted task) s = record {
    at = s.at;
    owner = s.owner;
    before = s.before;
    live = s.live;
    running = s.running;
  }
  Step-IsStuck i inside {p} (enter_loop j b e r) s = goes_on i j waiting p _ refl refl refl refl s
  Step-IsStuck i inside (leave_loop j b e r) s = absurd (ground (arith, s.running))
  Step-IsStuck i inside {p} (wake j b e r) s = goes_on i j taking p _ refl refl refl refl s
  Step-IsStuck i inside {p} (take j b e) s =
      goes_on i j (after_pop (pop p.q).1) p _ (after_pop_live (pop p.q).1) refl refl refl s
  Step-IsStuck i inside {p} (call_task j task b e) s = goes_on i j testing p _ refl refl refl refl s
  Step-IsStuck i inside (set_running o) s = absurd (ground (arith, s.owner))
  Step-IsStuck i inside (start_threads o r a) s = absurd (ground (arith, s.owner))
  Step-IsStuck i inside (begin_stop o r) s = absurd (ground (arith, s.owner))
  Step-IsStuck i inside {p} (join j o h e) s = record {
    at = j + 1;
    owner = refl;
    before = omega (arith, others, place);
    live = rw (not_equal) s.live;
    running = s.running;
  }
    where
      place : j ≡ s.at
      place = joining_inj (sym o ∙ s.owner)

      others : j ≢ i
      others = λ k. not_true (sym (ap (λ x. can_join (p.threads x)) k) ∙ e) s.live

      not_equal : (i == j) ≡ false
      not_equal = ground (arith, others)
  Step-IsStuck i inside (end_stop o) s = absurd (ground (arith, s.owner, s.before))

  -- A call of `stop` that has not yet joined a thread which waits for tasks, or is anywhere in its loop,
  -- never returns, whatever the threads do and whatever is submitted: the owner stays in `stop` and does
  -- not get past that thread, and `running_` stays true.
  pub stop_never_returns : (i : ℕ) {p q : Pool A} → i < n → IsStuck i p → Reach n p q → IsStuck i q
  stop_never_returns i inside s here = s
  stop_never_returns i inside s (next r t) =
      Step-IsStuck i inside t (stop_never_returns i inside s r)
