-- ===== src/BufferReader/Growth.antt =====
-- `BufferReader::append`: the buffer grows first, then takes the bytes.
use lp_net.Prelude.{
  ℕ, ◌-◌, ◌*◌, ◌^◌, ◌<◌, ◌≤◌, ◌≡◌, refl, sym, ap, ap₂, ◌∙◌, arith, List, ◌++◌, some, true, false,
  ltb, inl, inr, Bool-cases, if◌then◌else◌, length, take, min, take_of_length-le, mul_size,
  int_below_lem, to_int,
}
use lp_net.Buffer
use lp_net.Buffer.{Buffer, size}
use lp_net.Buffer.Inv.{IsValid, size-le-capacity, writable_bytes_lem}
use lp_net.Buffer.Refine.{contents, length-contents, write_lem}
use lp_net.Buffer.Reset.{reset_lem}
use lp_net.Buffer.Tight.{tight_write}
use lp_net.BufferReader.{grow, append}

-- The capacity after the first lines of `append`: twice as large where fewer than 4096 bytes are free.
abbrev pub grown : Buffer → ℕ
grown b = if ltb (b.capacity - size b) 4096 then b.capacity * 2 else b.capacity

module _ (new_array : ℕ → List ℕ) (sized : (n : ℕ) → length (new_array n) ≡ n) where
  pub grow_tests :
      {b : Buffer}
      → IsValid b
      → b.capacity < 2 ^ 30
      → grow new_array b ≡ (
          if ltb (b.capacity - size b) 4096
          then Buffer.reset new_array b (b.capacity * 2)
          else some b)
  unfolding grow
  grow_tests {b} v small =
      rw (writable_bytes_lem v, int_below_lem (b.capacity - size b) 4096 (omega arith))
        (ap (λ c. if ltb (b.capacity - size b) 4096 then Buffer.reset new_array b c else some b)
          {x = mul_size b.capacity 2} {y = b.capacity * 2} (omega arith))

  append_grown :
      {b : Buffer} (bytes : List ℕ) (len : ℕ)
      → IsValid b
      → b.capacity < 2 ^ 30
      → len ≤ length bytes
      → ltb (b.capacity - size b) 4096 ≡ true
      → (b' : Buffer) × (append new_array b bytes len ≡ some (to_int len, b'))
        × (contents b' ≡ contents b ++ take (min len (b.capacity * 2 - size b)) bytes)
        × (b'.capacity ≡ b.capacity * 2)
  unfolding append
  append_grown {b} bytes len v small enough few =
      let (b1, ran1, seen1, cap1, put1, t) =
        reset_lem new_array sized b (b.capacity * 2) v (omega arith) in
      let kept : contents b1 ≡ contents b =
        seen1
        ∙ take_of_length-le (b.capacity * 2) (contents b)
            (omega (arith, length-contents b, size-le-capacity v)) in
      let same_size : size b1 ≡ size b =
        sym (length-contents b1) ∙ ap length kept ∙ length-contents b in
      let (b2, ran2, x) = tight_write bytes len t enough in
      (
        b2,
        rw (grow_tests v small, few, ran1, ran2) refl,
        x.longer ∙ ap₂ ◌++◌ kept (ap (λ k. take k bytes) (omega (arith, cap1, same_size))),
        x.capacity ∙ cap1,
      )

  append_roomy :
      {b : Buffer} (bytes : List ℕ) (len : ℕ)
      → IsValid b
      → b.capacity < 2 ^ 30
      → len ≤ length bytes
      → ltb (b.capacity - size b) 4096 ≡ false
      → (b' : Buffer) × (append new_array b bytes len ≡ some (to_int len, b'))
        × (contents b' ≡ contents b ++ take (min len (b.capacity - size b)) bytes)
        × (b'.capacity ≡ b.capacity)
  unfolding append
  append_roomy {b} bytes len v small enough many =
      let (b2, ran2, x) = write_lem v bytes len enough in
      (b2, rw (grow_tests v small, many, ran2) refl, x.longer, x.kept.0)

  -- `append` to a valid buffer of a capacity below 2 ^ 30 doubles the capacity where fewer than 4096 bytes are free. It keeps the bytes that are
  -- there, puts as many of the new ones behind them as fit then, and returns `len` as an `int`, even where fewer fit.
  pub append_lem :
      {b : Buffer} (bytes : List ℕ) (len : ℕ)
      → IsValid b
      → b.capacity < 2 ^ 30
      → len ≤ length bytes
      → (b' : Buffer) × (append new_array b bytes len ≡ some (to_int len, b'))
        × (contents b' ≡ contents b ++ take (min len (grown b - size b)) bytes)
        × (b'.capacity ≡ grown b)
  append_lem {b} bytes len v small enough = elim (Bool-cases (ltb (b.capacity - size b) 4096)) [
    | inl few ↦ rw few (append_grown bytes len v small enough few)
    | inr many ↦ rw many (append_roomy bytes len v small enough many)
  ]
