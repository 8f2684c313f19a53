-- ===== src/Codec/Join.antt =====
-- How the reads put sign-extended bytes together.
use Prim.Native.Nat.{bit_and, bit_or}
use native.Mathlib.Nat.{mod-eq_of_lt}
use lp_net.Prelude.{
  ℕ, ◌+◌, ◌-◌, ◌*◌, ◌/◌, ◌%◌, ◌^◌, ◌<◌, ◌≤◌, ◌≡◌, refl, ap, ap₂, ◌∙◌, arith, false, ltb, ltb→lt,
  if◌then◌else◌, Bool-cases, inl, inr,
}
use lp_net.Prelude.Bits.{
  shl, bit_or_fields, bit_and_fields, bit_or-zero, zero-bit_or, bit_or_ones, bit_and_ones,
  bit_and-zero,
}
use lp_net.Codec.{sign_extend, shifted, or16, or32}

-- value & 0xFF
pub bit_and_0xff : (v : ℕ) → bit_and v 0xFF ≡ v % 256
bit_and_0xff v = omega (
  arith,
  bit_and_fields 8 (v / 256) 0 (v % 256) 255 (omega arith) (omega arith),
  bit_and-zero (v / 256),
  bit_and_ones 8 (v % 256) (omega arith),
  ap (λ t. bit_and t 255) {x = shl 8 (v / 256) + v % 256} {y = v} (omega arith),
)

-- The byte `c` below the value `hi`, all of whose bits (`ones`) are set if `c` is negative.
abbrev pub push : ℕ → ℕ → ℕ → ℕ
push ones hi c = (if ltb c 128 then hi else ones) * 256 + c

-- `n` bits above, `k` bits below: the or of a value and a sign-extended field.
or_plain : (k hi d : ℕ) → d < shl k 1 → bit_or (shl k hi + 0) (shl k 0 + d) ≡ shl k hi + d
or_plain k hi d h =
    bit_or_fields k hi 0 0 d (omega arith) h
    ∙ ap₂ (λ a b. shl k a + b) (bit_or-zero hi) (zero-bit_or d)

or_signed :
    (k n hi d : ℕ)
    → hi < shl n 1
    → d < shl k 1
    → bit_or (shl k hi + 0) (shl k (shl n 1 - 1) + d) ≡ shl k (shl n 1 - 1) + d
or_signed k n hi d hh h =
    bit_or_fields k hi (shl n 1 - 1) 0 d (omega arith) h
    ∙ ap₂ (λ a b. shl k a + b) (bit_or_ones n hi hh) (zero-bit_or d)

ge_of : (c : ℕ) → ltb c 128 ≡ false → 128 ≤ c
ge_of c e = ground arith

-- Or-ing a sign-extended byte to a value whose bits below are clear.
pub or_byte :
    (hi c : ℕ) → hi < 2 ^ 24 → c < 256 → bit_or (hi * 256) (sign_extend c) ≡ push (2 ^ 24 - 1) hi c
unfolding sign_extend
or_byte hi c h hc = elim (Bool-cases (ltb c 128)) [
  | inl e ↦
      rw e (ap₂ bit_or (omega arith) (omega arith) ∙ or_plain 8 hi c (omega arith) ∙ omega arith)
  | inr e ↦ rw e (
      ap₂ bit_or (omega arith) (omega arith)
      ∙ or_signed 8 24 hi c (omega arith) (omega arith)
      ∙ omega arith)
]

pub or_byte_8 :
    (hi c : ℕ)
    → hi < 2 ^ 16
    → c < 256
    → bit_or (hi * 2 ^ 16) (shifted c 8) ≡ push (2 ^ 16 - 1) hi c * 256
unfolding sign_extend shifted
or_byte_8 hi c h hc = elim (Bool-cases (ltb c 128)) [
  | inl e ↦
      let small : c < 128 = ltb→lt c 128 e in
      rw e (
        ap₂ bit_or (omega arith) (omega arith)
        ∙ or_plain 16 hi (c * 256) (omega arith)
        ∙ omega arith)
  | inr e ↦
      let big : 128 ≤ c = ge_of c e in
      rw e (
        ap₂ bit_or (omega arith) (omega arith)
        ∙ or_signed 16 16 hi (c * 256) (omega arith) (omega arith)
        ∙ omega arith)
]

pub or_byte_16 :
    (hi c : ℕ)
    → hi < 2 ^ 8
    → c < 256
    → bit_or (hi * 2 ^ 24) (shifted c 16) ≡ push (2 ^ 8 - 1) hi c * 2 ^ 16
unfolding sign_extend shifted
or_byte_16 hi c h hc = elim (Bool-cases (ltb c 128)) [
  | inl e ↦
      let small : c < 128 = ltb→lt c 128 e in
      rw e (
        ap₂ bit_or (omega arith) (omega arith)
        ∙ or_plain 24 hi (c * 2 ^ 16) (omega arith)
        ∙ omega arith)
  | inr e ↦
      let big : 128 ≤ c = ge_of c e in
      rw e (
        ap₂ bit_or (omega arith) (omega arith)
        ∙ or_signed 24 8 hi (c * 2 ^ 16) (omega arith) (omega arith)
        ∙ omega arith)
]

shifted_24 : (c : ℕ) → c < 256 → shifted c 24 ≡ c * 2 ^ 24
unfolding sign_extend shifted
shifted_24 c h = ground arith

shifted_16 : (c : ℕ) → c < 256 → shifted c 16 ≡ push 255 0 c * 2 ^ 16
unfolding sign_extend shifted
shifted_16 c h = ground arith

shifted_8 : (c : ℕ) → c < 256 → shifted c 8 % 2 ^ 16 ≡ c * 256
unfolding sign_extend shifted
shifted_8 c h = ground arith

-- What the three widths read from bytes in order of significance.
pub join_16 :
    (a b : ℕ)
    → a < 256
    → b < 256
    → or16 (or16 0 (shifted a 8)) (sign_extend b) ≡ push (2 ^ 24 - 1) a b % 2 ^ 16
unfolding or16
join_16 a b ha hb = rw (zero-bit_or, shifted_8 a ha, or_byte a b (omega arith) hb) refl

pub push-lt :
    (bound ones hi c : ℕ) → ones < bound → hi < bound → c < 256 → push ones hi c < bound * 256
push-lt bound ones hi c ho hh hc = ground arith

pub join_24 :
    (a b c : ℕ)
    → a < 256
    → b < 256
    → c < 256
    → or32 (or32 (or32 0 (shifted a 16)) (shifted b 8)) (sign_extend c)
      ≡ push (2 ^ 24 - 1) (push (2 ^ 16 - 1) (push 255 0 a) b) c
unfolding or32
join_24 a b c ha hb hc =
    let a' = push-lt (2 ^ 8) 255 0 a (omega arith) (omega arith) ha in
    let b' = push-lt (2 ^ 16) (2 ^ 16 - 1) (push 255 0 a) b (omega arith) (omega (arith, a')) hb in
    let c' =
      push-lt (2 ^ 24) (2 ^ 24 - 1) (push (2 ^ 16 - 1) (push 255 0 a) b) c (omega arith)
        (omega (arith, b')) hc in
    rw
      (
        zero-bit_or,
        shifted_16 a ha,
        mod-eq_of_lt {n = push 255 0 a * 2 ^ 16} {m = 2 ^ 32} (omega (arith, a')),
        or_byte_8 (push 255 0 a) b (omega (arith, a')) hb,
        mod-eq_of_lt {n = push (2 ^ 16 - 1) (push 255 0 a) b * 256} {m = 2 ^ 32}
            (omega (arith, b')),
        or_byte (push (2 ^ 16 - 1) (push 255 0 a) b) c (omega (arith, b')) hc,
      )
      (mod-eq_of_lt (omega (arith, c')))

pub join_32 :
    (a b c d : ℕ)
    → a < 256
    → b < 256
    → c < 256
    → d < 256
    → or32 (or32 (or32 (or32 0 (shifted a 24)) (shifted b 16)) (shifted c 8)) (sign_extend d)
      ≡ push (2 ^ 24 - 1) (push (2 ^ 16 - 1) (push 255 a b) c) d
unfolding or32
join_32 a b c d ha hb hc hd =
    let b' = push-lt (2 ^ 8) 255 a b (omega arith) (omega arith) hb in
    let c' = push-lt (2 ^ 16) (2 ^ 16 - 1) (push 255 a b) c (omega arith) (omega (arith, b')) hc in
    let d' =
      push-lt (2 ^ 24) (2 ^ 24 - 1) (push (2 ^ 16 - 1) (push 255 a b) c) d (omega arith)
        (omega (arith, c')) hd in
    rw
      (
        zero-bit_or,
        shifted_24 a ha,
        mod-eq_of_lt {n = a * 2 ^ 24} {m = 2 ^ 32} (omega arith),
        or_byte_16 a b ha hb,
        mod-eq_of_lt {n = push 255 a b * 2 ^ 16} {m = 2 ^ 32} (omega (arith, b')),
        or_byte_8 (push 255 a b) c (omega (arith, b')) hc,
        mod-eq_of_lt {n = push (2 ^ 16 - 1) (push 255 a b) c * 256} {m = 2 ^ 32}
            (omega (arith, c')),
        or_byte (push (2 ^ 16 - 1) (push 255 a b) c) d (omega (arith, c')) hd,
      )
      (mod-eq_of_lt (omega (arith, d')))
