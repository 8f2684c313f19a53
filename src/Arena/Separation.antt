-- ===== src/Arena/Separation.antt =====
-- What an arena gives out lies in its blocks, and no byte is given out twice.
use Prim.Native.Nat.{bit_and}
use lp_net.Prelude.{
  ℕ, ◌+◌, ◌-◌, ◌/◌, ◌%◌, ◌^◌, ◌≤◌, ◌<◌, ◌≡◌, inl, inr, refl, ap, arith, List, ◌∷◌, Option, none,
  some, false, ltb, leb, add_size, leb→le, Bool-cases,
}
use lp_net.Prelude.Bits.{shl, bit_and_fields, bit_and-zero, bit_and_ones}
use lp_net.Arena.{
  Arena, allocate_new_block, allocate_fall_back, allocate, slop_of, allocate_aligned,
}
use lp_net.Arena.Ranges.{Range, Fresh, Inv, free, carve, give_block, take_block}

bit_and_seven : (p : ℕ) → bit_and p 7 ≡ p % 8
bit_and_seven p = omega (
  arith,
  bit_and_fields 3 (p / 8) 0 (p % 8) 7 (omega arith) (omega arith),
  bit_and-zero (p / 8),
  bit_and_ones 3 (p % 8) (omega arith),
  ap (λ t. bit_and t 7) {x = shl 3 (p / 8) + p % 8} {y = p} (omega arith),
)

slop-lt : (p : ℕ) → slop_of p < 8
unfolding slop_of
slop-lt p = ground (arith, bit_and_seven p)

slop_aligns : (p : ℕ) → (p + slop_of p) % 8 ≡ 0
unfolding slop_of
slop_aligns p = ground (arith, bit_and_seven p)

fits_block : (n : ℕ) → ltb 1024 n ≡ false → n ≤ 1024
fits_block n h = ground arith

-- What `new` promises, if it was asked.
abbrev pub FreshIf : Option ℕ → ℕ → List Range → Type 0
FreshIf none fresh owned = Unit {0}
FreshIf (some n) fresh owned = Fresh (fresh, n) owned

abbrev pub owned_after : Option ℕ → ℕ → List Range → List Range
owned_after none fresh owned = owned
owned_after (some n) fresh owned = (fresh, n) ∷ owned

-- What a call that gave out `n` bytes keeps.
abbrev pub Keeps : ℕ → ℕ → List Range → List Range → ℕ × Arena × Option ℕ → Type 0
Keeps n fresh owned given (res, a, asked) =
    FreshIf asked fresh owned → Inv (free a) (owned_after asked fresh owned) ((res, n) ∷ given)

module _ (a : Arena) (owned given : List Range) (v : Inv (free a) owned given) where
  fall_back_Keeps : (n fresh : ℕ) → Keeps n fresh owned given (allocate_fall_back a n fresh)
  unfolding allocate_fall_back allocate_new_block
  fall_back_Keeps n fresh = elim (Bool-cases (ltb 1024 n)) [
    | inl big ↦
        rw big (λ new. give_block a.alloc_ptr a.alloc_bytes_remaining owned given v (fresh, n) new)
    | inr small ↦ rw small (λ new.
        carve fresh 4096 ((fresh, 4096) ∷ owned) given
          (take_block a.alloc_ptr a.alloc_bytes_remaining owned given v fresh 4096 new) fresh n
          (fresh + n) (4096 - n) (omega arith) refl (omega (arith, fits_block n small)))
  ]

  -- `allocate` keeps the ranges that were given out apart from one another and from the free bytes,
  -- and all of them inside the blocks that `new` returned, if `new` returns fresh memory.
  pub allocate-Inv :
      (n fresh : ℕ)
      → FreshIf (allocate a n fresh).2 fresh owned
      → Inv
          (free (allocate a n fresh).1)
          (owned_after (allocate a n fresh).2 fresh owned)
          (((allocate a n fresh).0, n) ∷ given)
  unfolding allocate
  allocate-Inv n fresh = elim (Bool-cases (leb n a.alloc_bytes_remaining)) [
    | inl fits ↦ rw fits (λ _.
        carve a.alloc_ptr a.alloc_bytes_remaining owned given v a.alloc_ptr n (a.alloc_ptr + n)
          (a.alloc_bytes_remaining - n) (omega arith) refl
          (omega (arith, leb→le n a.alloc_bytes_remaining fits)))
    | inr no_room ↦ rw no_room (fall_back_Keeps n fresh)
  ]

  -- `allocate_aligned` does so too, as long as the size and the skipped bytes do not wrap.
  pub allocate_aligned-Inv :
      (n fresh : ℕ)
      → n + 8 ≤ 2 ^ 64
      → FreshIf (allocate_aligned a n fresh).2 fresh owned
      → Inv
          (free (allocate_aligned a n fresh).1)
          (owned_after (allocate_aligned a n fresh).2 fresh owned)
          (((allocate_aligned a n fresh).0, n) ∷ given)
  unfolding allocate_aligned
  allocate_aligned-Inv n fresh small =
      let slop = slop_of a.alloc_ptr in
      let whole : add_size n slop ≡ n + slop = omega (arith, slop-lt a.alloc_ptr) in
      elim (Bool-cases (leb (add_size n slop) a.alloc_bytes_remaining)) [
        | inl fits ↦ rw fits (λ _.
            carve a.alloc_ptr a.alloc_bytes_remaining owned given v (a.alloc_ptr + slop) n
              (a.alloc_ptr + add_size n slop) (a.alloc_bytes_remaining - add_size n slop)
              (omega arith) (omega (arith, whole))
              (omega (arith, leb→le (add_size n slop) a.alloc_bytes_remaining fits)))
        | inr no_room ↦ rw no_room (fall_back_Keeps n fresh)
      ]

-- `allocateAligned` returns a multiple of eight, if `new` does.
pub allocate_aligned_aligned :
    (a : Arena) (n fresh : ℕ) → fresh % 8 ≡ 0 → (allocate_aligned a n fresh).0 % 8 ≡ 0
unfolding allocate_aligned allocate_fall_back allocate_new_block
allocate_aligned_aligned a n fresh h = ground (arith, slop_aligns a.alloc_ptr)
