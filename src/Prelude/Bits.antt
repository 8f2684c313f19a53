-- ===== src/Prelude/Bits.antt =====
-- The bit operations at variables: the law of the lowest digit, and what follows for fields of bits.
use Prim.Native.Nat.{
  ℕ, zero, suc, ◌+◌, ◌-◌, ◌*◌, ◌/◌, ◌%◌, ◌≤◌, ◌<◌, min, max, bit_and, bit_or, digits, bitwise,
  bit_and-bitwise, bit_or-bitwise,
}
use mathlib.Core.Path.{◌≡◌, refl, sym, ap, ap₂, ◌∙◌}
use native.Mathlib.Omega.{arith}

-- p << k
abbrev pub shl : ℕ → ℕ → ℕ
shl zero p = p
shl (suc k) p = shl k p * 2

-- What the native operations stand for: `rest` once the first number has run out, `op` on two digits.
module _ (rest : ℕ → ℕ) (op : ℕ → ℕ → ℕ) where
  one_round_more : (n a b : ℕ) → a ≤ n → digits rest op (suc n) a b ≡ digits rest op n a b
  one_round_more zero zero b h = refl
  one_round_more (suc n) zero b h = refl
  one_round_more zero (suc a) b h = absurd (omega arith)
  one_round_more (suc n) (suc a) b h =
      ap (λ t. t * 2 + op (suc a % 2) (b % 2)) (one_round_more n (suc a / 2) (b / 2) (omega arith))

  spare_rounds : (k n a b : ℕ) → a ≤ n → digits rest op (k + n) a b ≡ digits rest op n a b
  spare_rounds zero n a b h = ap (λ t. digits rest op t a b) {y = n} (omega arith)
  spare_rounds (suc k) n a b h =
      ap (λ t. digits rest op t a b) {y = suc (k + n)} (omega arith)
      ∙ one_round_more (k + n) a b (omega arith)
      ∙ spare_rounds k n a b h

  -- The lowest digit, and the halves.
  halve :
      (a b : ℕ)
      → bitwise rest op (suc a) b ≡ bitwise rest op (suc a / 2) (b / 2) * 2 + op (suc a % 2) (b % 2)
  halve a b =
      ap (λ t. t * 2 + op (suc a % 2) (b % 2))
        (ap (λ n. digits rest op n (suc a / 2) (b / 2)) {y = (a - suc a / 2) + suc a / 2}
            (omega arith)
          ∙ spare_rounds (a - suc a / 2) (suc a / 2) (suc a / 2) (b / 2) (omega arith))

pub zero-bit_or : (n : ℕ) → bit_or 0 n ≡ n
zero-bit_or = bit_or-bitwise 0

pub zero-bit_and : (n : ℕ) → bit_and 0 n ≡ 0
zero-bit_and = bit_and-bitwise 0

pub bit_or_step : (m n : ℕ) → bit_or m n ≡ bit_or (m / 2) (n / 2) * 2 + max (m % 2) (n % 2)
bit_or_step zero n = zero-bit_or n ∙ omega (arith, zero-bit_or (n / 2))
bit_or_step (suc m) n =
    bit_or-bitwise (suc m) n
    ∙ halve (λ t. t) max m n
    ∙ ap (λ t. t * 2 + max (suc m % 2) (n % 2)) (sym (bit_or-bitwise (suc m / 2) (n / 2)))

pub bit_and_step : (m n : ℕ) → bit_and m n ≡ bit_and (m / 2) (n / 2) * 2 + min (m % 2) (n % 2)
bit_and_step zero n = zero-bit_and n ∙ omega (arith, zero-bit_and (n / 2))
bit_and_step (suc m) n =
    bit_and-bitwise (suc m) n
    ∙ halve (λ t. 0) min m n
    ∙ ap (λ t. t * 2 + min (suc m % 2) (n % 2)) (sym (bit_and-bitwise (suc m / 2) (n / 2)))

-- Fields of `k` low bits and the bits above them do not mix.
pub bit_or_fields :
    (k p q c d : ℕ)
    → c < shl k 1
    → d < shl k 1
    → bit_or (shl k p + c) (shl k q + d) ≡ shl k (bit_or p q) + bit_or c d
bit_or_fields zero p q c d hc hd = omega (
  arith,
  ap₂ bit_or {x = p + c} {y = p} {u = q + d} {v = q} (omega arith) (omega arith),
  ap₂ bit_or {x = c} {y = 0} {u = d} {v = 0} (omega arith) (omega arith),
)
bit_or_fields (suc k) p q c d hc hd = omega (
  arith,
  bit_or_step (shl k p * 2 + c) (shl k q * 2 + d),
  bit_or_step c d,
  bit_or_fields k p q (c / 2) (d / 2) (omega arith) (omega arith),
  ap₂ bit_or {x = (shl k p * 2 + c) / 2} {y = shl k p + c / 2} {u = (shl k q * 2 + d) / 2}
      {v = shl k q + d / 2} (omega arith) (omega arith),
)

pub bit_and_fields :
    (k p q c d : ℕ)
    → c < shl k 1
    → d < shl k 1
    → bit_and (shl k p + c) (shl k q + d) ≡ shl k (bit_and p q) + bit_and c d
bit_and_fields zero p q c d hc hd = omega (
  arith,
  ap₂ bit_and {x = p + c} {y = p} {u = q + d} {v = q} (omega arith) (omega arith),
  ap₂ bit_and {x = c} {y = 0} {u = d} {v = 0} (omega arith) (omega arith),
)
bit_and_fields (suc k) p q c d hc hd = omega (
  arith,
  bit_and_step (shl k p * 2 + c) (shl k q * 2 + d),
  bit_and_step c d,
  bit_and_fields k p q (c / 2) (d / 2) (omega arith) (omega arith),
  ap₂ bit_and {x = (shl k p * 2 + c) / 2} {y = shl k p + c / 2} {u = (shl k q * 2 + d) / 2}
      {v = shl k q + d / 2} (omega arith) (omega arith),
)

shl-zero : (k : ℕ) → shl k 0 ≡ 0
shl-zero zero = refl
shl-zero (suc k) = omega (arith, shl-zero k)

-- A zero second number, for first numbers up to a bound.
zeros_up_to : (bound m : ℕ) → m ≤ bound → (bit_or m 0 ≡ m) × (bit_and m 0 ≡ 0)
zeros_up_to bound zero h = (refl, refl)
zeros_up_to zero (suc m) h = absurd (omega arith)
zeros_up_to (suc bound) (suc m) h =
    let (or_half, and_half) = zeros_up_to bound (suc m / 2) (omega arith) in
    (omega (arith, bit_or_step (suc m) 0, or_half), omega (arith, bit_and_step (suc m) 0, and_half))

pub bit_or-zero : (m : ℕ) → bit_or m 0 ≡ m
bit_or-zero m = (zeros_up_to m m (omega arith)).0

pub bit_and-zero : (m : ℕ) → bit_and m 0 ≡ 0
bit_and-zero m = (zeros_up_to m m (omega arith)).1

-- With k one-bits: the low bits of the other number.
pub bit_or_ones : (k c : ℕ) → c < shl k 1 → bit_or c (shl k 1 - 1) ≡ shl k 1 - 1
bit_or_ones zero c h = ap (λ t. bit_or t 0) {y = 0} (omega arith)
bit_or_ones (suc k) c h = omega (
  arith,
  bit_or_step c (shl k 1 * 2 - 1),
  bit_or_ones k (c / 2) (omega arith),
  ap (bit_or (c / 2)) {x = (shl k 1 * 2 - 1) / 2} {y = shl k 1 - 1} (omega arith),
)

pub bit_and_ones : (k c : ℕ) → c < shl k 1 → bit_and c (shl k 1 - 1) ≡ c
bit_and_ones zero c h = ap (λ t. bit_and t 0) {y = 0} (omega arith) ∙ omega arith
bit_and_ones (suc k) c h = omega (
  arith,
  bit_and_step c (shl k 1 * 2 - 1),
  bit_and_ones k (c / 2) (omega arith),
  ap (bit_and (c / 2)) {x = (shl k 1 * 2 - 1) / 2} {y = shl k 1 - 1} (omega arith),
)
