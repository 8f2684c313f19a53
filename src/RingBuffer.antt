-- ===== src/RingBuffer.antt =====
-- util/buffer/RingBuffer.h: `RingBuffer<T>`. An element is any number, since it is only moved. The
-- mutex is not recursive: `held` says whether the calling thread has it already, and to lock it then
-- is a step that cannot be made.
pub mod Contents
pub mod Operations
mod Tests
use lp_net.Prelude.{
  ℕ, zero, suc, ◌+◌, ◌-◌, ◌%◌, List, [], ◌∷◌, Option, none, some, Bool, true, false, leb, ◌==◌,
  if◌then◌else◌, ◌>>=◌, ◌>>◌, load, store, add_size, sub_size,
}

pub record RingBuffer : Type 0 where
  pub capacity : ℕ
  pub put_pos : ℕ
  pub get_pos : ℕ
  pub cells : List ℕ

-- `capacity` default elements.
pub init : (ℕ → List ℕ) → ℕ → RingBuffer
init resized capacity = record {
  capacity = capacity;
  put_pos = 0;
  get_pos = 0;
  cells = resized capacity;
}

-- Division by zero is a fault.
pub modulo : ℕ → ℕ → Option ℕ
modulo a zero = none
modulo a (suc m) = some (a % suc m)

pub size_internal : RingBuffer → Option ℕ
size_internal r = modulo (sub_size (add_size r.capacity r.put_pos) r.get_pos) r.capacity

pub empty_internal : RingBuffer → Bool
empty_internal r = r.put_pos == r.get_pos

pub full_internal : RingBuffer → Option Bool
full_internal r = size_internal r >>= λ n. some (n == r.capacity)

-- Mutex::lock locker(mutex_)
unfoldable pub locking : Bool → Option Bool
locking true = none
locking false = some true

pub size : Bool → RingBuffer → Option ℕ
size held r = locking held >> size_internal r

pub full : Bool → RingBuffer → Option Bool
full held r = locking held >> full_internal r

pub empty : Bool → RingBuffer → Option Bool
empty held r = locking held >> some (empty_internal r)

-- The two assignments that both versions of `push` make.
pub put : RingBuffer → ℕ → Option RingBuffer
put r x = do
  cells ← store r.cells r.put_pos x
  next ← modulo (add_size r.put_pos 1) r.capacity
  some (record r { cells = cells; put_pos = next })

-- push(const T &x): the result is `none` where the function ends without a `return`.
pub push_copy : Bool → RingBuffer → ℕ → Option (Option Bool × RingBuffer)
push_copy held r x = do
  locking held
  n ← size_internal r
  if leb r.capacity n then some (some false, r) else (put r x >>= λ r'. some (none, r'))

-- push(T &&x): it calls `size`, which locks the mutex that is held.
pub push_move : Bool → RingBuffer → ℕ → Option (Option Bool × RingBuffer)
push_move held r x = do
  held' ← locking held
  n ← size held' r
  if leb r.capacity n then some (some false, r) else (put r x >>= λ r'. some (some true, r'))

-- What is stored through the reference is an element if the result is true. `pop` takes no lock.
pub pop : RingBuffer → Option (Bool × Option ℕ × RingBuffer)
pop r = if empty_internal r then some (false, none, r) else (do
  x ← load r.cells r.get_pos
  next ← modulo (add_size r.get_pos 1) r.capacity
  some (true, some x, record r { get_pos = next }))
