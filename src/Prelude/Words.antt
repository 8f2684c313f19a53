-- ===== src/Prelude/Words.antt =====
-- `size_t` arithmetic: sums and differences wrap at 2 ^ 64. A `size_t` that is stored in an `int` keeps
-- its low 32 bits, which read as a negative number from 2 ^ 31 on.
use Prim.Native.Nat.{ℕ, ◌+◌, ◌-◌, ◌*◌, ◌%◌, ◌^◌, ◌<◌}
use mathlib.Core.Bool.{Bool, true, false}
use mathlib.Core.Path.{◌≡◌, ap}
use native.Mathlib.Omega.{arith}
use lp_net.Prelude.Tests.{ltb, leb, if◌then◌else◌}

abbrev pub size_mod : ℕ
size_mod = 2 ^ 64

abbrev pub add_size : ℕ → ℕ → ℕ
add_size a b = (a + b) % 2 ^ 64

abbrev pub sub_size : ℕ → ℕ → ℕ
sub_size a b = (a + 2 ^ 64 - b) % 2 ^ 64

abbrev pub mul_size : ℕ → ℕ → ℕ
mul_size a b = (a * b) % 2 ^ 64

-- (int)n < k
abbrev pub int_below : ℕ → ℕ → Bool
int_below n k = if leb (2 ^ 31) (n % 2 ^ 32) then true else ltb (n % 2 ^ 32) k

-- (size_t)(int)n
abbrev pub int_to_size : ℕ → ℕ
int_to_size n = if leb (2 ^ 31) (n % 2 ^ 32) then n % 2 ^ 32 + (2 ^ 64 - 2 ^ 32) else n % 2 ^ 32

-- The integers over the native numbers: `negsuc n` is -(n + 1).
pub data ℤ : Type 0 where
  pos : ℕ → ℤ
  negsuc : ℕ → ℤ

-- (int)n
unfoldable pub to_int : ℕ → ℤ
to_int n = if leb (2 ^ 31) (n % 2 ^ 32) then negsuc (2 ^ 32 - 1 - n % 2 ^ 32) else pos (n % 2 ^ 32)

-- (size_t)z of an int
unfoldable pub size_of_int : ℤ → ℕ
size_of_int (pos n) = n
size_of_int (negsuc n) = 2 ^ 64 - 1 - n

pub to_int-pos : (n : ℕ) → n < 2 ^ 31 → to_int n ≡ pos n
unfolding to_int
to_int-pos n h =
    let low : leb (2 ^ 31) (n % 2 ^ 32) ≡ false = ground arith in rw low (ap pos (omega arith))

pub int_below_lem : (n k : ℕ) → n < 2 ^ 31 → int_below n k ≡ ltb n k
int_below_lem n k h = ground arith

pub int_to_size_lem : (n : ℕ) → n < 2 ^ 31 → int_to_size n ≡ n
int_to_size_lem n h = ground arith
