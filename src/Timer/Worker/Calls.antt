-- ===== src/Timer/Worker/Calls.antt =====
-- When the thread of a `Timer` calls a task.
use lp_net.Prelude.{
  ℕ, ◌+◌, ◌-◌, ◌^◌, ◌≤◌, ◌<◌, ◌≡◌, ap, ◌∙◌, arith, List, ◌∷◌, none, some, Bool, true, false,
  add_size,
}
use lp_net.Timer.{TimerTask, run_task}
use lp_net.Timer.Table.{IdTimestampPair, TimerTaskMap, assign, hash}
use lp_net.Timer.Table
use lp_net.Timer.Worker.{
  table, Timer, until, next_timestamp, pause, call_task, get_timer, run, pop, top,
}

-- The thread sleeps until the first task expires, and no longer.
until-pause :
    (asked : ℕ) (task : TimerTask)
    → asked ≤ task.expired_time
    → 0 < task.expired_time
    → task.expired_time < 2 ^ 64 - 1
    → asked + pause (until asked task) ≡ task.expired_time
unfolding until pause
until-pause asked task ahead set finite = ground arith

call_expired :
    (called : ℕ) (task : TimerTask)
    → task.expired_time ≤ called
    → call_task called (some task) ≡ task.callback
unfolding call_task run_task
call_expired called task h = ground arith

call_early :
    (called : ℕ) (task : TimerTask)
    → called < task.expired_time
    → call_task called (some task) ≡ none
unfolding call_task run_task
call_early called task h = ground arith

module _ (capacity : ℕ) (task : TimerTask) (entries : List (IdTimestampPair × TimerTask)) where
  -- A timer that runs over a map with these entries.
  abbrev pub over : List (IdTimestampPair × TimerTask) → Timer
  over rest = record {
    tasks = table (record { tasks = rest; capacity = capacity });
    running = true;
    worker = true;
  }

  -- The task is the first entry.
  abbrev pub waiting : Timer
  waiting = over ((hash task, task) ∷ entries)

  run_lem :
      (asked popped called : ℕ) (cycled : Bool)
      → task.cycled ≡ cycled
      → run asked popped called waiting ≡ (
          let (out, m) =
            Table.pop_first popped
              (record { tasks = (hash task, task) ∷ entries; capacity = capacity })
              task
              entries
              cycled in
          some (
            pause (until asked task),
            call_task called out,
            record { tasks = table m; running = true; worker = true },
          ))
  unfolding run next_timestamp get_timer pop top Table.top Table.pop Table.pop_first
  run_lem asked popped called cycled h =
      ap
        (λ c.
          let (out, m) =
            Table.pop_first popped
              (record { tasks = (hash task, task) ∷ entries; capacity = capacity }) task entries
              c in
          some (
            pause (until asked task),
            call_task called out,
            record { tasks = table m; running = true; worker = true },
          ))
        h

  -- The thread takes a one-shot task out of the map, sleeps exactly until it expires and calls its
  -- callback, if the clock has got there by then.
  pub run-once :
      (asked popped called : ℕ)
      → task.cycled ≡ false
      → asked ≤ task.expired_time
      → 0 < task.expired_time
      → task.expired_time < 2 ^ 64 - 1
      → task.expired_time ≤ called
      → (slept : ℕ) × (asked + slept ≡ task.expired_time)
        × (run asked popped called waiting ≡ some (slept, task.callback, over entries))
  unfolding Table.pop_first
  run-once asked popped called one_shot ahead set finite awake = (
    pause (until asked task),
    until-pause asked task ahead set finite,
    run_lem asked popped called false one_shot
        ∙ ap (λ c. some (pause (until asked task), c, over entries))
            (call_expired called task awake),
  )

  -- The thread does not call a cyclic task that it pops, if the clock at the call has not come to the time of the `pop` plus
  -- the duration of the task: `pop` puts the task off to that time, and a task that has not expired is not
  -- called. The task is back in the map with that time, which is below 2 ^ 64.
  pub run-cyclic :
      (asked popped called : ℕ)
      → task.cycled ≡ true
      → popped + task.duration < 2 ^ 64
      → called < popped + task.duration
      → run asked popped called waiting
        ≡ some (
          pause (until asked task),
          none,
          over (
              assign
                (task.id, popped + task.duration)
                (record task { expired_time = popped + task.duration })
                entries),
        )
  unfolding Table.pop_first
  run-cyclic asked popped called cyclic small soon =
      run_lem asked popped called true cyclic
      ∙ ap
          (λ c. some (
            pause (until asked task),
            c,
            over (
                assign (task.id, add_size popped task.duration)
                  (record task { expired_time = add_size popped task.duration }) entries),
          ))
          (call_early called _ (omega arith))
      ∙ ap
          (λ expiry. some (
            pause (until asked task),
            none,
            over (assign (task.id, expiry) (record task { expired_time = expiry }) entries),
          ))
          sized
    where
      sized : add_size popped task.duration ≡ popped + task.duration
      sized = omega arith
