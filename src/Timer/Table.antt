-- ===== src/Timer/Table.antt =====
-- `TimerTaskMap`: a `std::map` from pairs of an id and an expiry to tasks, as the sequence of its entries.
-- A key stands before the first entry that the comparator does not put before it.
pub mod Order
use lp_net.Prelude.{
  ℕ, ◌+◌, List, [], ◌∷◌, Option, none, some, Bool, true, false, not, ◌&&◌, leb, ◌==◌, if◌then◌else◌,
  length,
}
use lp_net.Timer.{TimerTask, no_task, set_expired_time, set_cycle}

abbrev pub IdTimestampPair : Type 0
IdTimestampPair = ℕ × ℕ

pub record TimerTaskMap : Type 0 where
  pub tasks : List (IdTimestampPair × TimerTask)
  pub capacity : ℕ

pub init : ℕ → TimerTaskMap
init capacity = record { tasks = []; capacity = capacity }

abbrev pub hash : TimerTask → IdTimestampPair
hash task = (task.id, task.expired_time)

-- Comparator
abbrev pub before : IdTimestampPair → IdTimestampPair → Bool
before a b = not (a.0 == b.0) && leb a.1 b.1

-- data_[key] = task
pub assign :
    IdTimestampPair
    → TimerTask
    → List (IdTimestampPair × TimerTask)
    → List (IdTimestampPair × TimerTask)
assign key task [] = (key, task) ∷ []
assign key task (entry ∷ entries) =
    if before entry.0 key
    then entry ∷ assign key task entries
    else if before key entry.0
    then (key, task) ∷ entry ∷ entries
    else (entry.0, task) ∷ entries

-- data_.emplace(key, task): an entry that is there is kept.
pub emplace :
    IdTimestampPair
    → TimerTask
    → List (IdTimestampPair × TimerTask)
    → List (IdTimestampPair × TimerTask)
emplace key task [] = (key, task) ∷ []
emplace key task (entry ∷ entries) =
    if before entry.0 key
    then entry ∷ emplace key task entries
    else if before key entry.0
    then (key, task) ∷ entry ∷ entries
    else entry ∷ entries

pub size : TimerTaskMap → ℕ
size m = length m.tasks

unfoldable pub top : TimerTaskMap → TimerTask
top m = elim m.tasks [ [] ↦ no_task | entry ∷ entries ↦ entry.1 ]

pub add : TimerTaskMap → TimerTask → ℕ × TimerTaskMap
add m task = (task.id, record m { tasks = assign (hash task) task m.tasks })

-- std::find_if by the id and erase: the task that is found, and the other entries.
pub take_out :
    ℕ → List (IdTimestampPair × TimerTask) → Option (TimerTask × List (IdTimestampPair × TimerTask))
take_out id [] = none
take_out id (entry ∷ entries) =
    if entry.0.0 == id
    then some (entry.1, entries)
    else elim (take_out id entries) [ none ↦ none | some found ↦ some (found.0, entry ∷ found.1) ]

pub remove : TimerTaskMap → ℕ → Bool × TimerTaskMap
remove m id = elim (take_out id m.tasks) [
  | none ↦ (false, m)
  | some found ↦ (true, record m { tasks = found.1 })
]

pub modify : ℕ → TimerTaskMap → ℕ → ℕ → Bool → Bool × TimerTaskMap
modify now m id duration cycled = elim (take_out id m.tasks) [
  | none ↦ (false, m)
  | some found ↦
      let task = set_cycle cycled (set_expired_time now duration found.0) in
      (true, record m { tasks = emplace (hash task) task found.1 })
]

-- pop()
pub drop_first : TimerTaskMap → Bool × TimerTaskMap
drop_first m = elim m.tasks [
  | [] ↦ (false, m)
  | entry ∷ entries ↦ (true, record m { tasks = entries })
]

-- What `pop(task)` does with the first entry: a cyclic task gets a new expiry and goes back.
unfoldable pub pop_first :
    ℕ
    → TimerTaskMap
    → TimerTask
    → List (IdTimestampPair × TimerTask)
    → Bool
    → Option TimerTask × TimerTaskMap
pop_first now m task entries false = (some task, record m { tasks = entries })
pop_first now m task entries true =
    let again = set_expired_time now task.duration task in
    (some again, record m { tasks = assign (hash again) again entries })

-- pop(task), with the task that it gives.
unfoldable pub pop : ℕ → TimerTaskMap → Option TimerTask × TimerTaskMap
pop now m = elim m.tasks [
  | [] ↦ (none, m)
  | entry ∷ entries ↦ pop_first now m entry.1 entries entry.1.cycled
]
