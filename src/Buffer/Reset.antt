-- ===== src/Buffer/Reset.antt =====
-- `Buffer::reset`: the bytes move to a new array of `newCapacity` bytes, one fewer than the ring
-- arithmetic of the new capacity goes over.
use native.Mathlib.Nat.{mod-eq_of_lt, min-eq_left}
use lp_net.Prelude.{
  ℕ, zero, suc, ◌+◌, ◌-◌, ◌%◌, ◌^◌, ◌<◌, ◌≤◌, ◌≡◌, refl, sym, ap, ap₂, ◌∙◌, arith, List, ◌++◌, none,
  some, ◌>>=◌, length, take, drop, min, set, replicate, dec_lt, length-append, length-drop,
  length-set, store-set, store_out, get_or, get_elem?-eq-get_or, length-replicate,
  take-append_length, take-min, sub_size,
}
use lp_net.Buffer.{
  Buffer, size, index_of, copy_in, copy_out, copy_to, read, write, fill, drain, readable_bytes,
  reset,
}
use lp_net.Buffer.Inv.{IsValid, size-le-capacity, size_ahead}
use lp_net.Buffer.Window.{window, window-piece, length-window, take-window}
use lp_net.Buffer.Copy.{copy_out_prefix}
use lp_net.Buffer.Refine.{contents, length-contents, if-leb, if-min}

-- Positions that `indexOf` does not take round.
pub index_of_small :
    (b : Buffer) (p n : ℕ) → b.capacity < 2 ^ 62 → p + n ≤ b.capacity → index_of b p n ≡ p + n
unfolding index_of
index_of_small b p n small h =
    ap₂ ◌%◌ (omega arith) (omega arith)
    ∙ mod-eq_of_lt {n = p + n} {m = suc b.capacity} (omega arith)

-- The size does not depend on the array.
pub size_from_zero :
    (b : Buffer)
    → b.capacity < 2 ^ 62
    → b.get_pos ≤ b.put_pos
    → b.put_pos ≤ b.capacity
    → size b ≡ b.put_pos - b.get_pos
unfolding size
size_from_zero b small h hp =
    size_ahead {b = record b { cells = replicate (suc b.capacity) 0 }}
      (record {
        allocated = length-replicate (suc b.capacity) 0;
        put_in = hp;
        get_in = omega arith;
        small = small;
      })
      h

-- What `reset` leaves: the oldest bytes that fit, in an array of just `capacity` bytes.
pub record IsTight (b : Buffer) : Type 0 where
  pub tight : length b.cells ≡ b.capacity
  pub start : b.get_pos ≡ 0
  pub put_in : b.put_pos ≤ b.capacity
  pub small : b.capacity < 2 ^ 62

module _ (new_array : ℕ → List ℕ) (length-new_array : (n : ℕ) → length (new_array n) ≡ n) where
  -- `reset` of a valid buffer to a capacity below 2 ^ 62 keeps the oldest bytes, as many as the new
  -- capacity allows, in order, in an array of just as many bytes as the capacity.
  pub reset_lem :
      (b : Buffer) (new_capacity : ℕ)
      → IsValid b
      → new_capacity < 2 ^ 62
      → (b' : Buffer) × (reset new_array b new_capacity ≡ some b')
        × (contents b' ≡ take new_capacity (contents b))
        × (b'.capacity ≡ new_capacity)
        × (b'.put_pos ≡ min new_capacity (size b))
        × IsTight b'
  unfolding reset copy_to
  reset_lem b c v small = (
    b',
    rw (if-leb c (size b), copied) refl,
    seen,
    refl,
    refl,
    record { tight = sized; start = refl; put_in = omega arith; small = small },
  )
    where
      n : ℕ
      n = min c (size b)

      new_data : List ℕ
      new_data = window b.cells (suc b.capacity) b.get_pos n ++ drop n (new_array c)

      b' : Buffer
      b' = record { capacity = c; put_pos = n; get_pos = 0; cells = new_data }

      copied : copy_out b (new_array c) 0 n ≡ some new_data
      copied =
          copy_out_prefix (new_array c) n v (omega (arith, length-new_array c))
            (omega (arith, size-le-capacity v))

      sized : length new_data ≡ c
      sized = omega (
        arith,
        length-append (window b.cells (suc b.capacity) b.get_pos n) (drop n (new_array c)),
        length-window b.cells (suc b.capacity) b.get_pos n,
        length-drop n (new_array c),
        length-new_array c,
      )

      seen : contents b' ≡ take c (contents b)
      seen =
          ap (window new_data (suc c) 0) {y = n}
            (omega (arith, size_from_zero b' small (omega arith) (omega arith)))
          ∙ window-piece new_data (suc c) 0 n (omega arith) (omega (arith, sized))
              (omega (arith, sized))
          ∙ ap (λ k. take k new_data) (sym (length-window b.cells (suc b.capacity) b.get_pos n))
          ∙ take-append_length (window b.cells (suc b.capacity) b.get_pos n) (drop n (new_array c))
          ∙ sym (take-window b.cells (suc b.capacity) b.get_pos n (size b) (omega arith))
          ∙ take-min c (size b) (contents b) (length-contents b)

-- The store that goes round at the new capacity is the first one past the array.
copy_in_out :
    (b : Buffer) (s : List ℕ) (i rounds : ℕ)
    → length b.cells ≡ b.capacity
    → b.capacity < 2 ^ 62
    → i + rounds ≤ length s
    → b.put_pos + i ≤ b.capacity
    → b.capacity < b.put_pos + i + rounds
    → copy_in b s i rounds ≡ none
unfolding copy_in
copy_in_out b s i zero tight small hs h past = absurd (omega arith)
copy_in_out b s i (suc rounds) tight small hs h past = elim (dec_lt (b.put_pos + i) b.capacity) [
  | yes inside ↦
      rw
        (
          get_elem?-eq-get_or s i 0 (omega arith),
          index_of_small b b.put_pos i small h,
          store-set b.cells (b.put_pos + i) (get_or s i 0) (omega arith),
          copy_in_out (record b { cells = set b.cells (b.put_pos + i) (get_or s i 0) }) s (suc i)
              rounds (length-set b.cells (b.put_pos + i) (get_or s i 0) ∙ tight) small (omega arith)
              (omega arith) (omega arith),
        )
        refl
  | no outside ↦
      rw
        (
          get_elem?-eq-get_or s i 0 (omega arith),
          index_of_small b b.put_pos i small h,
          store_out b.cells (b.put_pos + i) (get_or s i 0) (omega arith),
        )
        refl
]

-- A buffer that `reset` made and that has been emptied by reading at least one byte: writing as
-- many bytes as it says are free stores past the end of its array.
pub tight_write_out :
    (b : Buffer) (s : List ℕ)
    → length b.cells ≡ b.capacity
    → b.capacity < 2 ^ 62
    → 0 < b.put_pos
    → b.get_pos ≡ b.put_pos
    → b.put_pos ≤ b.capacity
    → length s ≡ b.capacity
    → write b (some s) (length s) ≡ none
unfolding write drain
tight_write_out b s tight small pos level h len =
    rw (empty_size, room, if-min (length s) b.capacity, out) refl
  where
    empty_size : size b ≡ 0
    empty_size = size_from_zero b small (omega arith) h ∙ omega arith

    room : sub_size b.capacity 0 ≡ b.capacity
    room = omega arith

    out : copy_in b s 0 (min (length s) b.capacity) ≡ none
    out =
        copy_in_out b s 0 (min (length s) b.capacity) tight small (omega arith) (omega arith)
          (omega arith)

module _ (new_array : ℕ → List ℕ) (length-new_array : (n : ℕ) → length (new_array n) ≡ n) where
  -- After a `reset` of a valid buffer that holds bytes to a positive capacity below 2 ^ 62: reading them all and then writing as many bytes
  -- as the buffer says are free stores past the end of the new array.
  pub reset-read-write_out :
      (b : Buffer) (c : ℕ) (s : List ℕ)
      → IsValid b
      → c < 2 ^ 62
      → 0 < c
      → 0 < size b
      → length s ≡ c
      → (reset new_array b c >>= λ b'.
          read b' none (size b') >>= λ r. write r.2 (some s) (length s))
        ≡ none
  unfolding read fill readable_bytes
  reset-read-write_out b c s v small pos held len =
      let (b', made, _, cap, at, t) = reset_lem new_array length-new_array b c v small in
      let n : size b' ≡ b'.put_pos =
        omega (arith, size_from_zero b' t.small (omega (arith, t.start)) t.put_in, t.start) in
      let moved : index_of b' b'.get_pos b'.put_pos ≡ b'.put_pos =
        index_of_small b' b'.get_pos b'.put_pos t.small (omega (arith, t.start, t.put_in))
        ∙ omega (arith, t.start) in
      rw
        (
          made,
          n,
          if-min b'.put_pos b'.put_pos,
          min-eq_left {n = b'.put_pos} {m = b'.put_pos} (omega arith),
          moved,
        )
        (tight_write_out (record b' { get_pos = b'.put_pos }) s t.tight t.small (omega (arith, at))
          refl t.put_in (len ∙ sym cap))
