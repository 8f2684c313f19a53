-- ===== src/Timer.antt =====
-- util/Timer.h: a timer task. The children hold the two stores of tasks, the heap (Heap) and the ordered
-- map (Table), and the timer over either (Worker). Every call of the clock is an argument `now`.
pub mod Heap
pub mod Table
pub mod Worker
mod Tests
use lp_net.Prelude.{
  ℕ, Option, none, some, Bool, true, false, not, ltb, leb, ◌==◌, if◌then◌else◌, add_size,
}

-- A callback is a number; `none` is a `std::function` that holds nothing.
pub record TimerTask : Type 0 where
  pub duration : ℕ
  pub expired_time : ℕ
  pub cycled : Bool
  pub callback : Option ℕ
  pub id : ℕ

-- TimerTask()
pub no_task : TimerTask
no_task = record { duration = 0; expired_time = 0; cycled = false; callback = none; id = 0 }

-- The constructor with a callback, and the next value of `curr_timer_id`.
pub new_task : ℕ → ℕ → Option ℕ → ℕ → Bool → TimerTask × ℕ
new_task now curr_timer_id callback duration cycled = (
  record {
    duration = duration;
    expired_time = add_size now duration;
    cycled = cycled;
    callback = callback;
    id = curr_timer_id;
  },
  add_size curr_timer_id 1,
)

abbrev pub is_expired : ℕ → TimerTask → Bool
is_expired now task = leb task.expired_time now

abbrev pub set_expired_time : ℕ → ℕ → TimerTask → TimerTask
set_expired_time now duration task = record task {
  duration = duration;
  expired_time = add_size now duration;
}

abbrev pub set_cycle : Bool → TimerTask → TimerTask
set_cycle cycled task = record task { cycled = cycled }

-- operator() and run: the callback that is called.
pub run_task : ℕ → TimerTask → Option ℕ
run_task now task = if is_expired now task then task.callback else none

-- operator<, operator> and operator==
abbrev pub earlier : TimerTask → TimerTask → Bool
earlier a b = ltb a.expired_time b.expired_time

abbrev pub later : TimerTask → TimerTask → Bool
later a b = ltb b.expired_time a.expired_time

abbrev pub same_task : TimerTask → TimerTask → Bool
same_task a b = a.id == b.id
