-- ===== src/Channel/Interest.antt =====
-- The interest bits: each setter changes its own bit and no other.
use Prim.Native.Nat.{bit_and, bit_or}
use lp_net.Prelude.{
  ℕ, ◌+◌, ◌-◌, ◌*◌, ◌/◌, ◌%◌, ◌^◌, ◌<◌, ◌≡◌, refl, sym, ap, ◌∙◌, arith, true, false, not, ◌==◌,
}
use lp_net.Prelude.Bits.{bit_or_step, bit_and_step, bit_or-zero, bit_and-zero, bit_and_ones}
use lp_net.Channel.{
  Channel, raised, complement, enable_reading, enable_writing, disable_reading, disable_writing,
  is_reading, is_writing,
}

and_in : (e : ℕ) → bit_and e 1 ≡ e % 2
and_in e = omega (arith, bit_and_step e 1, bit_and-zero (e / 2))

and_out : (e : ℕ) → bit_and e 4 ≡ (e / 4 % 2) * 4
and_out e = omega (arith, bit_and_step e 4, bit_and_step (e / 2) 2, and_in (e / 2 / 2))

or_in : (e : ℕ) → bit_or e 1 ≡ e / 2 * 2 + 1
or_in e = omega (arith, bit_or_step e 1, bit_or-zero (e / 2))

or_out : (e : ℕ) → bit_or e 4 ≡ e / 8 * 8 + 4 + e % 4
or_out e = omega (arith, bit_or_step e 4, bit_or_step (e / 2) 2, or_in (e / 2 / 2))

clear_in : (e : ℕ) → e < 2 ^ 32 → bit_and e (complement 1) ≡ e / 2 * 2
unfolding complement
clear_in e h = omega (arith, bit_and_step e (2 ^ 32 - 2), bit_and_ones 31 (e / 2) (omega arith))

clear_out : (e : ℕ) → e < 2 ^ 32 → bit_and e (complement 4) ≡ e / 8 * 8 + e % 4
unfolding complement
clear_out e h = omega (
  arith,
  bit_and_step e (2 ^ 32 - 5),
  bit_and_step (e / 2) (2 ^ 31 - 3),
  bit_and_step (e / 2 / 2) (2 ^ 30 - 2),
  bit_and_ones 29 (e / 2 / 2 / 2) (omega arith),
)

-- The tests, by the digit that they read.
reads : (e n : ℕ) → e % 2 ≡ n → raised e 1 ≡ not (n == 0)
unfolding raised
reads e n h = ap (λ t. not (t == 0)) (and_in e ∙ h)

writes : (e n : ℕ) → e / 4 % 2 ≡ n → raised e 4 ≡ not (n * 4 == 0)
unfolding raised
writes e n h = ap (λ t. not (t == 0)) (and_out e ∙ ap (λ t. t * 4) h)

module _ {ℓ} {S : Type ℓ} (c : Channel S) where
  -- `enableReading` makes `isReading` true and `enableWriting` makes `isWriting` true; neither changes
  -- what the other test says.
  pub enable_lem :
      (is_reading (enable_reading c) ≡ true)
      × (is_writing (enable_reading c) ≡ is_writing c)
      × (is_writing (enable_writing c) ≡ true)
      × (is_reading (enable_writing c) ≡ is_reading c)
  unfolding enable_reading enable_writing is_reading is_writing
  enable_lem = (
    reads (bit_or e 1) 1 (omega (arith, or_in e)),
    writes (bit_or e 1) (e / 4 % 2) (omega (arith, or_in e)) ∙ sym (writes e (e / 4 % 2) refl),
    writes (bit_or e 4) 1 (omega (arith, or_out e)),
    reads (bit_or e 4) (e % 2) (omega (arith, or_out e)) ∙ sym (reads e (e % 2) refl),
  )
    where
      e : ℕ
      e = c.events

  -- For event bits below 2 ^ 32, `disableReading` makes `isReading` false and `disableWriting` makes `isWriting` false; neither
  -- changes what the other test says.
  pub disable_lem :
      c.events < 2 ^ 32
      → (is_reading (disable_reading c) ≡ false)
        × (is_writing (disable_reading c) ≡ is_writing c)
        × (is_writing (disable_writing c) ≡ false)
        × (is_reading (disable_writing c) ≡ is_reading c)
  unfolding disable_reading disable_writing is_reading is_writing
  disable_lem h = (
    reads (bit_and e (complement 1)) 0 (omega (arith, clear_in e h)),
    writes (bit_and e (complement 1)) (e / 4 % 2) (omega (arith, clear_in e h))
        ∙ sym (writes e (e / 4 % 2) refl),
    writes (bit_and e (complement 4)) 0 (omega (arith, clear_out e h)),
    reads (bit_and e (complement 4)) (e % 2) (omega (arith, clear_out e h))
        ∙ sym (reads e (e % 2) refl),
  )
    where
      e : ℕ
      e = c.events
