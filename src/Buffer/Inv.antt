-- ===== src/Buffer/Inv.antt =====
-- The representation invariant of a `Buffer`: `capacity_ + 1` allocated bytes, and both positions
-- among them.
use native.Mathlib.Nat.{mod-eq_of_lt, mod-eq-sub-mod}
use lp_net.Prelude.{
  ℕ, suc, ◌+◌, ◌-◌, ◌%◌, ◌^◌, ◌<◌, ◌≤◌, ◌≡◌, ◌∙◌, ap₂, refl, arith, List, length, dec_le,
}
use lp_net.Buffer.{Buffer, init, size, readable_bytes, writable_bytes, index_of}

pub record IsValid (b : Buffer) : Type 0 where
  pub allocated : length b.cells ≡ suc b.capacity
  pub put_in : b.put_pos ≤ b.capacity
  pub get_in : b.get_pos ≤ b.capacity
  pub small : b.capacity < 2 ^ 62

-- No `size_t` operation of `size` wraps.
pub size_lem :
    {b : Buffer} → IsValid b → size b ≡ (suc b.capacity + b.put_pos - b.get_pos) % suc b.capacity
unfolding size
size_lem v = ap₂ ◌%◌ (omega arith) (omega arith)

-- The distance from the read position to the write position.
pub size_ahead : {b : Buffer} → IsValid b → b.get_pos ≤ b.put_pos → size b ≡ b.put_pos - b.get_pos
size_ahead {b} v h =
    size_lem v ∙ mod-eq-sub-mod (omega arith) ∙ mod-eq_of_lt (omega arith) ∙ omega arith

pub size_behind :
    {b : Buffer}
    → IsValid b
    → b.put_pos < b.get_pos
    → size b ≡ suc b.capacity + b.put_pos - b.get_pos
size_behind {b} v h = size_lem v ∙ mod-eq_of_lt (omega arith)

pub size-le-capacity : {b : Buffer} → IsValid b → size b ≤ b.capacity
size-le-capacity {b} v = elim (dec_le b.get_pos b.put_pos) [
  | yes h ↦ omega (arith, size_ahead v h)
  | no h ↦ omega (arith, size_behind v (omega arith))
]

-- The write position is the read position, as many bytes further.
pub put_pos-size : {b : Buffer} → IsValid b → (b.get_pos + size b) % suc b.capacity ≡ b.put_pos
put_pos-size {b} v = elim (dec_le b.get_pos b.put_pos) [
  | yes h ↦
      ap₂ ◌%◌ (omega (arith, size_ahead v h)) refl ∙ mod-eq_of_lt {n = b.put_pos} (omega arith)
  | no h ↦
      ap₂ ◌%◌ {x = b.get_pos + size b} {y = suc b.capacity + b.put_pos}
        (omega (arith, size_behind v (omega arith))) refl
      ∙ mod-eq-sub-mod (omega arith)
      ∙ mod-eq_of_lt (omega arith)
      ∙ omega arith
]

-- No addition of `indexOf` wraps.
pub index_of_lem :
    {b : Buffer} (p n : ℕ)
    → IsValid b
    → p ≤ b.capacity + b.capacity
    → n ≤ b.capacity
    → index_of b p n ≡ (p + n) % suc b.capacity
unfolding index_of
index_of_lem {b} p n v hp hn = ap₂ ◌%◌ (omega arith) (omega arith)

-- Two positions with the same distance modulo the ring size: the size is what the distance says.
pub size_of_positions :
    {b : Buffer} (n : ℕ)
    → IsValid b
    → n ≤ b.capacity
    → b.put_pos ≡ (b.get_pos + n) % suc b.capacity
    → size b ≡ n
size_of_positions {b} n v small e = elim (dec_le (suc b.capacity) (b.get_pos + n)) [
  | yes h ↦ omega (
    arith,
    e,
    mod-eq-sub-mod {n = b.get_pos + n} {m = suc b.capacity} h,
    mod-eq_of_lt {n = b.get_pos + n - suc b.capacity} {m = suc b.capacity} (omega arith),
    size_behind v (
        omega (
          arith,
          e,
          mod-eq-sub-mod {n = b.get_pos + n} {m = suc b.capacity} h,
          mod-eq_of_lt {n = b.get_pos + n - suc b.capacity} {m = suc b.capacity} (omega arith),
        )),
  )
  | no h ↦
      let ahead : b.put_pos ≡ b.get_pos + n = e ∙ mod-eq_of_lt (omega arith) in
      omega (arith, ahead, size_ahead v (omega (arith, ahead)))
]

-- The constructor makes a valid empty buffer, if `new char[n]` returns `n` bytes.
pub init_lem :
    (new_array : ℕ → List ℕ) (c : ℕ)
    → ((n : ℕ) → length (new_array n) ≡ n)
    → c < 2 ^ 62
    → IsValid (init new_array c)
      × (size (init new_array c) ≡ 0)
      × ((init new_array c).get_pos ≡ 0)
      × ((init new_array c).capacity ≡ c)
unfolding init
init_lem new_array c length-new_array small = (v, size_ahead v (omega arith), refl, refl)
  where
    v : IsValid (init new_array c)
    v = record {
      allocated = length-new_array _ ∙ omega arith;
      put_in = omega arith;
      get_in = omega arith;
      small = small;
    }

pub readable_bytes-eq-size : (b : Buffer) → readable_bytes b ≡ size b
unfolding readable_bytes
readable_bytes-eq-size b = refl

pub writable_bytes_lem : {b : Buffer} → IsValid b → writable_bytes b ≡ b.capacity - size b
unfolding writable_bytes
writable_bytes_lem {b} v = omega (arith, size-le-capacity v, v.small)
