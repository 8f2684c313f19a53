-- ===== src/Codec.antt =====
-- The integers of BufferReader.cpp and BufferWriter.cpp, over the bytes at a pointer `p`. A byte is
-- its bit pattern; `char` is signed, as it is on the program's targets, so that a `char` that is
-- read becomes an `int` with its sign, written here as the 32-bit pattern of that `int`.
pub mod Join
pub mod RoundTrip
mod Tests
use Prim.Native.Nat.{bit_and, bit_or}
use lp_net.Prelude.{
  ℕ, ◌+◌, ◌-◌, ◌*◌, ◌/◌, ◌%◌, ◌^◌, List, Option, some, ltb, if◌then◌else◌, ◌>>=◌, load, store,
}

-- (char)x
abbrev pub to_char : ℕ → ℕ
to_char x = x % 256

-- (int)c, for a `char`
pub sign_extend : ℕ → ℕ
sign_extend c = if ltb c 128 then c else c + (2 ^ 32 - 256)

-- (int)c << k
pub shifted : ℕ → ℕ → ℕ
shifted c k = sign_extend c * 2 ^ k % 2 ^ 32

-- res |= x, for a `uint16_t` and for a `uint32_t`
pub or16 : ℕ → ℕ → ℕ
or16 res x = bit_or res x % 2 ^ 16

pub or32 : ℕ → ℕ → ℕ
or32 res x = bit_or res x % 2 ^ 32

pub read_u16_forward : List ℕ → Option ℕ
read_u16_forward p = do
  p0 ← load p 0
  p1 ← load p 1
  some (or16 (or16 0 (shifted p0 8)) (sign_extend p1))

pub read_u16_reverse : List ℕ → Option ℕ
read_u16_reverse p = do
  p1 ← load p 1
  p0 ← load p 0
  some (or16 (or16 0 (shifted p1 8)) (sign_extend p0))

pub read_u24_forward : List ℕ → Option ℕ
read_u24_forward p = do
  p0 ← load p 0
  p1 ← load p 1
  p2 ← load p 2
  some (or32 (or32 (or32 0 (shifted p0 16)) (shifted p1 8)) (sign_extend p2))

pub read_u24_reverse : List ℕ → Option ℕ
read_u24_reverse p = do
  p2 ← load p 2
  p1 ← load p 1
  p0 ← load p 0
  some (or32 (or32 (or32 0 (shifted p2 16)) (shifted p1 8)) (sign_extend p0))

pub read_u32_forward : List ℕ → Option ℕ
read_u32_forward p = do
  p0 ← load p 0
  p1 ← load p 1
  p2 ← load p 2
  p3 ← load p 3
  some (or32 (or32 (or32 (or32 0 (shifted p0 24)) (shifted p1 16)) (shifted p2 8)) (sign_extend p3))

pub read_u32_reverse : List ℕ → Option ℕ
read_u32_reverse p = do
  p3 ← load p 3
  p2 ← load p 2
  p1 ← load p 1
  p0 ← load p 0
  some (or32 (or32 (or32 (or32 0 (shifted p3 24)) (shifted p2 16)) (shifted p1 8)) (sign_extend p0))

pub write_u16_forward : List ℕ → ℕ → Option (List ℕ)
write_u16_forward p value = do
  p' ← store p 0 (to_char (value / 2 ^ 8))
  store p' 1 (to_char (bit_and value 0xFF))

pub write_u16_reverse : List ℕ → ℕ → Option (List ℕ)
write_u16_reverse p value = do
  p' ← store p 1 (to_char (value / 2 ^ 8))
  store p' 0 (to_char (bit_and value 0xFF))

pub write_u24_forward : List ℕ → ℕ → Option (List ℕ)
write_u24_forward p value = do
  p' ← store p 0 (to_char (value / 2 ^ 16))
  p'' ← store p' 1 (to_char (value / 2 ^ 8))
  store p'' 2 (to_char (bit_and value 0xFF))

pub write_u24_reverse : List ℕ → ℕ → Option (List ℕ)
write_u24_reverse p value = do
  p' ← store p 2 (to_char (value / 2 ^ 16))
  p'' ← store p' 1 (to_char (value / 2 ^ 8))
  store p'' 0 (to_char (bit_and value 0xFF))

pub write_u32_forward : List ℕ → ℕ → Option (List ℕ)
write_u32_forward p value = do
  p' ← store p 0 (to_char (value / 2 ^ 24))
  p'' ← store p' 1 (to_char (value / 2 ^ 16))
  p3 ← store p'' 2 (to_char (value / 2 ^ 8))
  store p3 3 (to_char (bit_and value 0xFF))

pub write_u32_reverse : List ℕ → ℕ → Option (List ℕ)
write_u32_reverse p value = do
  p' ← store p 3 (to_char (value / 2 ^ 24))
  p'' ← store p' 2 (to_char (value / 2 ^ 16))
  p3 ← store p'' 1 (to_char (value / 2 ^ 8))
  store p3 0 (to_char (bit_and value 0xFF))
