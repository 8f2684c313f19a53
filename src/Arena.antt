-- ===== src/Arena.antt =====
-- util/mm/Arena.h and Arena.cpp. A pointer is its address. What `new char[n]` returns is an argument
-- of each call, and each call says how many bytes it asked `new` for, if it did.
pub mod Ranges
pub mod Separation
pub mod History
mod Tests
use Prim.Native.Nat.{bit_and}
use lp_net.Prelude.{
  ℕ, ◌+◌, ◌-◌, ◌/◌, List, [], ◌∷◌, ◌++◌, Option, none, some, ltb, leb, ◌==◌, if◌then◌else◌,
  add_size, sub_size,
}

pub record Arena : Type 0 where
  pub alloc_ptr : ℕ
  pub alloc_bytes_remaining : ℕ
  pub blocks : List ℕ
  pub memory_usage : ℕ

abbrev pub block_size : ℕ
block_size = 4096

-- sizeof(char*), and the alignment that `allocateAligned` keeps
abbrev pub pointer_size : ℕ
pointer_size = 8

abbrev pub init : Arena
init = record { alloc_ptr = 0; alloc_bytes_remaining = 0; blocks = []; memory_usage = 0 }

-- `fresh` is the address that `new char[block_bytes]` returns.
pub allocate_new_block : Arena → ℕ → ℕ → ℕ × Arena
allocate_new_block a block_bytes fresh = (
  fresh,
  record a {
    blocks = a.blocks ++ fresh ∷ [];
    memory_usage = add_size a.memory_usage (add_size block_bytes pointer_size);
  },
)

-- The result, the new state, and the number of bytes that `new` was asked for.
pub allocate_fall_back : Arena → ℕ → ℕ → ℕ × Arena × Option ℕ
unfolding allocate_new_block
allocate_fall_back a nbytes fresh =
    if ltb (block_size / 4) nbytes
    then (let (res, a') = allocate_new_block a nbytes fresh in (res, a', some nbytes))
    else (let (res, a') = allocate_new_block a block_size fresh in
        (
          res,
          record a' { alloc_ptr = res + nbytes; alloc_bytes_remaining = block_size - nbytes },
          some block_size,
        ))

pub allocate : Arena → ℕ → ℕ → ℕ × Arena × Option ℕ
unfolding allocate_fall_back
allocate a nbytes fresh =
    if leb nbytes a.alloc_bytes_remaining
    then (
      a.alloc_ptr,
      record a {
        alloc_ptr = a.alloc_ptr + nbytes;
        alloc_bytes_remaining = a.alloc_bytes_remaining - nbytes;
      },
      none,
    )
    else allocate_fall_back a nbytes fresh

-- The bytes that are skipped for the alignment.
pub slop_of : ℕ → ℕ
slop_of p =
    let current_mod = bit_and p (pointer_size - 1) in
    if current_mod == 0 then 0 else pointer_size - current_mod

pub allocate_aligned : Arena → ℕ → ℕ → ℕ × Arena × Option ℕ
unfolding allocate_fall_back
allocate_aligned a nbytes fresh =
    let slop = slop_of a.alloc_ptr in
    let needed = add_size nbytes slop in
    if leb needed a.alloc_bytes_remaining
    then (
      a.alloc_ptr + slop,
      record a {
        alloc_ptr = a.alloc_ptr + needed;
        alloc_bytes_remaining = a.alloc_bytes_remaining - needed;
      },
      none,
    )
    else allocate_fall_back a nbytes fresh
