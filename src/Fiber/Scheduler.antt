-- ===== src/Fiber/Scheduler.antt =====
-- util/fiber/FiberScheduler.h and FiberScheduler.cpp. The mutex is not recursive: to lock it while it is
-- held is a step that cannot be made.
pub mod Stuck
pub mod Idle
use lp_net.Prelude.{
  ℕ, ◌+◌, ◌-◌, ◌%◌, ◌^◌, List, [], ◌∷◌, Option, none, some, Bool, true, false, not, ◌==◌,
  if◌then◌else◌, ◌>>=◌, ◌>>◌,
}
use lp_net.RingBuffer.{locking}
use lp_net.Fiber.{Fiber}
use lp_net.Fiber

-- `fibers_`: a key that `[]` made has no fiber.
abbrev pub Table : Type 0
Table = List (ℕ × Option Fiber)

-- `fiber_queue_` is `queue`, its front first.
pub record FiberScheduler : Type 0 where
  pub held : Bool
  pub curr_fid : ℕ
  pub fibers : Table
  pub queue : List ℕ

-- kInvalidFiberId
abbrev pub invalid_fid : ℕ
invalid_fid = 2 ^ 32 - 1

unfoldable pub init : FiberScheduler
init = record { held = false; curr_fid = invalid_fid; fibers = []; queue = [] }

unfoldable pub lock : FiberScheduler → Option FiberScheduler
lock s = locking s.held >> some (record s { held = true })

abbrev pub unlock : FiberScheduler → FiberScheduler
unlock s = record s { held = false }

-- The entry of a key, if there is one.
unfoldable pub find : ℕ → Table → Option (Option Fiber)
find fid [] = none
find fid (entry ∷ rest) = if entry.0 == fid then some entry.1 else find fid rest

-- fibers_[fid] = fiber
unfoldable pub assign : ℕ → Option Fiber → Table → Table
assign fid f [] = (fid, f) ∷ []
assign fid f (entry ∷ rest) = if entry.0 == fid then (fid, f) ∷ rest else entry ∷ assign fid f rest

unfoldable pub erase : ℕ → Table → Table
erase fid [] = []
erase fid (entry ∷ rest) = if entry.0 == fid then rest else entry ∷ erase fid rest

-- The pointer that `fibers_[fid]` is; a null pointer is put in where the key is missing.
unfoldable pub entry_of : Option (Option Fiber) → Option Fiber
entry_of none = none
entry_of (some f) = f

-- The fiber that is submitted, and the next number: a new one for a null pointer.
unfoldable pub fiber_of : ℕ → Option Fiber → Fiber × ℕ
fiber_of next_fid none = (Fiber.init next_fid, (next_fid + 1) % 2 ^ 32)
fiber_of next_fid (some f) = (f, next_fid)

-- `next_fid` is `next_fid_`; the contexts are made by the operating system.
unfoldable pub submit : ℕ → FiberScheduler → Option Fiber → Option (ℕ × FiberScheduler)
submit next_fid s fiber =
    let (f, next) = fiber_of next_fid fiber in
    (lock s >>= λ s'. some (next, unlock (record s' { fibers = assign f.fid (some f) s'.fibers })))

unfoldable pub removed : ℕ → FiberScheduler → Option (Option Fiber) → Bool × FiberScheduler
removed fid s none = (false, unlock s)
removed fid s (some f) = (true, unlock (record s { fibers = erase fid s.fibers }))

unfoldable pub remove : FiberScheduler → ℕ → Option (Bool × FiberScheduler)
remove s fid = lock s >>= λ s'. some (removed fid s' (find fid s'.fibers))

-- The argument of `move2otherScheduler`.
pub data Target : Type 0 where
  null : Target
  itself : Target
  other : FiberScheduler → Target

-- The number that is next, the target and this scheduler after the move.
abbrev pub Moved : Type 0
Moved = Bool × ℕ × FiberScheduler × FiberScheduler

unfoldable pub moved :
    ℕ → ℕ → FiberScheduler → FiberScheduler → Option (Option Fiber) → Option Moved
moved next_fid fid s t none = some (false, next_fid, unlock s, t)
moved next_fid fid s t (some f) = submit next_fid t f >>= λ out.
    some (true, out.0, unlock (record s { fibers = erase fid s.fibers }), out.1)

-- `none` inside stands for the early return.
unfoldable pub move_to_other : ℕ → FiberScheduler → ℕ → Target → Option (Option Moved)
move_to_other next_fid s fid null = some none
move_to_other next_fid s fid itself = some none
move_to_other next_fid s fid (other t) =
    lock s >>= λ s'. (moved next_fid fid s' t (find fid s'.fibers) >>= λ out. some (some out))

unfoldable pub next_of : FiberScheduler → List ℕ → Option Fiber × FiberScheduler
next_of s [] = (none, s)
next_of s (fid ∷ rest) = (
  entry_of (find fid s.fibers),
  record s { queue = rest; fibers = assign fid (entry_of (find fid s.fibers)) s.fibers },
)

unfoldable pub get_next_fiber : FiberScheduler → Option (Option Fiber × FiberScheduler)
get_next_fiber s = lock s >>= λ s'. (let out = next_of s' s'.queue in some (out.0, unlock out.1))

unfoldable pub curr_fiber_id : FiberScheduler → Option ℕ
curr_fiber_id s = lock s >>= λ s'. some s'.curr_fid

-- `yield_fiber` and `resume_fiber` are the methods of a fiber with what runs after their switch.
module _ (yield_fiber : Fiber → Option Fiber) (resume_fiber : Fiber → Fiber) where
  unfoldable pub yield_locked : FiberScheduler → Option FiberScheduler
  yield_locked s =
      if s.curr_fid == invalid_fid
      then some s
      else (entry_of (find s.curr_fid s.fibers) >>= λ f.
          (yield_fiber f >>= λ f'.
          some
            (record s { fibers = assign s.curr_fid (some f') s.fibers; curr_fid = invalid_fid })))

  unfoldable pub yield : FiberScheduler → Option FiberScheduler
  yield s = do s1 ← lock s; s2 ← yield_locked s1; some (unlock s2)

  -- The fiber that was found, under the lock.
  unfoldable pub resume_found : FiberScheduler → ℕ → Option (Option Fiber) → Option FiberScheduler
  resume_found s fid none = some s
  resume_found s fid (some f) = do
    s' ← yield s
    fiber ← f
    some (record s' { fibers = assign fid (some (resume_fiber fiber)) s'.fibers; curr_fid = fid })

  unfoldable pub resume_locked : FiberScheduler → ℕ → Option FiberScheduler
  resume_locked s fid = if s.curr_fid == fid then some s else resume_found s fid (find fid s.fibers)

  unfoldable pub resume : FiberScheduler → ℕ → Option FiberScheduler
  resume s fid = do s1 ← lock s; s2 ← resume_locked s1 fid; some (unlock s2)
