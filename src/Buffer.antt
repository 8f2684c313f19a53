-- ===== src/Buffer.antt =====
-- util/buffer/Buffer.h and Buffer.cpp: a ring of `capacity_ + 1` bytes, one of them always free.
pub mod Window
pub mod Inv
mod Fifo
mod Copy
pub mod Refine
pub mod Run
pub mod Search
pub mod Find
pub mod Reset
pub mod Tight
pub mod Socket
mod Tests
use lp_net.Prelude.{
  ◌^◌, ℤ, negsuc, to_int, ℕ, zero, suc, ◌+◌, ◌*◌, ◌-◌, ◌%◌, List, [], ◌∷◌, Option, none, some, Bool,
  true, false, ltb, leb, ◌==◌, if◌then◌else◌, ◌>>=◌, length, load, store, add_size, sub_size,
}

-- `data_` is the allocated array: its length is the number of bytes that were allocated.
pub record Buffer : Type 0 where
  pub capacity : ℕ
  pub put_pos : ℕ
  pub get_pos : ℕ
  pub cells : List ℕ

abbrev pub max_bytes_per_read : ℕ
max_bytes_per_read = 4096

-- `new_array n` is what `new char[n]` returns, whose bytes are not initialised.
pub init : (ℕ → List ℕ) → ℕ → Buffer
init new_array capacity = record {
  capacity = capacity;
  put_pos = 0;
  get_pos = 0;
  cells = new_array (add_size capacity 1);
}

pub size : Buffer → ℕ
size b = sub_size (add_size (add_size b.capacity 1) b.put_pos) b.get_pos % add_size b.capacity 1

pub readable_bytes : Buffer → ℕ
readable_bytes b = size b

pub writable_bytes : Buffer → ℕ
writable_bytes b = sub_size b.capacity (size b)

pub full : Buffer → Bool
full b = size b == b.capacity

pub empty : Buffer → Bool
empty b = b.put_pos == b.get_pos

pub clear : Buffer → Buffer
clear b = record b { get_pos = 0; put_pos = 0 }

pub index_of : Buffer → ℕ → ℕ → ℕ
index_of b pos n = add_size pos n % add_size b.capacity 1

-- for (i = 0; i < bytesRead; ++i) s[i] = data_[indexOf(get_pos_, i)], with the rounds that are left.
pub copy_out : Buffer → List ℕ → ℕ → ℕ → Option (List ℕ)
copy_out b s i zero = some s
copy_out b s i (suc rounds) = do
  byte ← load b.cells (index_of b b.get_pos i)
  s' ← store s i byte
  copy_out b s' (suc i) rounds

-- for (i = 0; i < bytesWrite; ++i) data_[indexOf(put_pos_, i)] = s[i]
pub copy_in : Buffer → List ℕ → ℕ → ℕ → Option Buffer
copy_in b s i zero = some b
copy_in b s i (suc rounds) = do
  byte ← load s i
  cells' ← store b.cells (index_of b b.put_pos i) byte
  copy_in (record b { cells = cells' }) s (suc i) rounds

-- `s` is the caller's array, `none` for a null pointer.
pub fill : Buffer → Option (List ℕ) → ℕ → Option (Option (List ℕ))
fill b none n = some none
fill b (some s) n = do s' ← copy_out b s 0 n; some (some s')

pub read : Buffer → Option (List ℕ) → ℕ → Option (Option (List ℕ) × ℕ × Buffer)
read b s n =
    let bytes_read = if ltb n (readable_bytes b) then n else readable_bytes b in
    do
      s' ← fill b s bytes_read
      some (s', bytes_read, record b { get_pos = index_of b b.get_pos bytes_read })

pub drain : Buffer → Option (List ℕ) → ℕ → Option Buffer
drain b none n = some b
drain b (some s) n = copy_in b s 0 n

pub write : Buffer → Option (List ℕ) → ℕ → Option (ℕ × Buffer)
write b s n =
    let room = sub_size b.capacity (size b) in
    let bytes_write = if ltb n room then n else room in
    do
      b' ← drain b s bytes_write
      some (bytes_write, record b' { put_pos = index_of b' b'.put_pos bytes_write })

-- new_data[i] = data_[indexOf(get_pos_, i)]
pub copy_to : Buffer → List ℕ → ℕ → ℕ → Option (List ℕ)
copy_to b new_data i rounds = copy_out b new_data i rounds

pub reset : (ℕ → List ℕ) → Buffer → ℕ → Option Buffer
reset new_array b new_capacity =
    let n = if leb new_capacity (size b) then new_capacity else size b in
    do
      new_data ← copy_to b (new_array new_capacity) 0 n
      some (record { capacity = new_capacity; put_pos = n; get_pos = 0; cells = new_data })

-- How the inner loop of `find` ends: by its test, by `break`, or by the return of -1.
pub data Match : Type 0 where
  matched mismatch ran_out : Match

-- The inner loop from `i` on, with the characters of `target` that are left.
pub match_at : Buffer → ℕ → ℕ → List ℕ → Option Match
match_at b j i [] = some matched
match_at b j i (t ∷ target) =
    let idx = index_of b (add_size j b.get_pos) i in
    let rest = match_at b j (suc i) target in
    if idx == b.put_pos
    then some ran_out
    else (load b.cells idx >>= λ byte. if byte == t then rest else some mismatch)

pub find_from : Buffer → List ℕ → ℕ → ℕ → Option (Option ℕ)
find_from b target j zero = some none
find_from b target j (suc rounds) = match_at b j 0 target >>= elim [
  | matched ↦ some (some j)
  | mismatch ↦ find_from b target (suc j) rounds
  | ran_out ↦ some none
]

-- The result as an `int`: -1 where no place was found, and the place with its high bits cut off.
unfoldable pub int_of_place : Option ℕ → ℤ
int_of_place none = negsuc 0
int_of_place (some j) = to_int j

-- The loops over `j` and `i`; `int len` is the length of the string. A string of 2 ^ 31 characters or more, whose
-- length is no `int`, is outside of the model, as a fault.
pub find : Buffer → List ℕ → Option ℤ
find b target =
    if ltb (length target) (2 ^ 31)
    then (find_from b target 0 (size b) >>= λ place. some (int_of_place place))
    else none
