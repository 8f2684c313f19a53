-- ===== src/BufferReader/Skipping.antt =====
-- The calls of `BufferReader` that consume bytes.
use lp_net.Prelude.{
  ℕ, ◌+◌, ◌-◌, ◌^◌, ◌<◌, ◌≤◌, ◌≡◌, refl, ap₂, ◌∙◌, arith, List, [], ◌++◌, Option, none, some,
  length, take, drop, min, drop-min, take_of_length-le, drop_of_length-le, int_to_size_lem, ℤ, pos,
  negsuc, add_size, to_int-pos, size_of_int,
}
use lp_net.Buffer.{Buffer, size}
use lp_net.Buffer.Inv.{IsValid, size-le-capacity, readable_bytes-eq-size}
use lp_net.Buffer.Refine.{contents, length-contents, read_lem, read_null_lem}
use lp_net.Buffer.Search.{IsFirst}
use lp_net.Buffer.Find.{place_or_minus_one, find-IsFirst}
use lp_net.BufferReader.{skip, find_and_skip, read_all, advance, advance_to}

-- What `findAndSkip` returns, and how many bytes it consumes.
abbrev pub past : List ℕ → Option ℕ → ℤ
past word none = negsuc 0
past word (some n) = pos (n + length word)

abbrev pub skipped : List ℕ → Option ℕ → ℕ
skipped word none = 0
skipped word (some n) = n + length word

module _ {b : Buffer} (v : IsValid b) where
  advance_lem :
      (n : ℕ)
      → (b' : Buffer) × (advance b n ≡ some b') × (contents b' ≡ drop n (contents b)) × IsValid b'
  unfolding advance
  advance_lem n =
      let (b', ran, x) = read_null_lem v n in
      (b', rw ran refl, x.rest ∙ drop-min n (size b) (contents b) (length-contents b), x.valid)

  skip_lem :
      (word : List ℕ) (place : Option ℕ)
      → IsFirst word (contents b) place
      → size b + length word < 2 ^ 31
      → (b' : Buffer) × (skip b word (place_or_minus_one place) ≡ some (past word place, b'))
        × (contents b' ≡ drop (skipped word place) (contents b))
        × IsValid b'
  unfolding skip
  skip_lem word none first small = (b, refl, refl, v)
  skip_lem word (some n) first small =
      let (b', ran, x) = read_null_lem v (n + length word) in
      let inside : n < size b = omega (arith, first.0, length-contents b) in
      let sum : add_size n (length word) ≡ n + length word = omega (arith, small) in
      (
        b',
        rw (sum, ran, to_int-pos (n + length word) (omega (arith, small))) refl,
        x.rest ∙ drop-min (n + length word) (size b) (contents b) (length-contents b),
        x.valid,
      )

  -- In a valid buffer, with fewer than 2 ^ 31 bytes in the buffer and the word together, `findAndSkip` consumes the bytes up to and with the first place of the word, and returns how many;
  -- where the word does not stand, it returns -1 and consumes nothing.
  pub find_and_skip_lem :
      (word : List ℕ)
      → size b + length word < 2 ^ 31
      → (place : Option ℕ) × IsFirst word (contents b) place
        × ((b' : Buffer) × (find_and_skip b word ≡ some (past word place, b'))
            × (contents b' ≡ drop (skipped word place) (contents b))
            × IsValid b')
  unfolding find_and_skip
  find_and_skip_lem word small =
      let (place, found, first) = find-IsFirst v word (omega arith) (omega arith) in
      (place, first, rw found (skip_lem word place first small))

  -- In a valid buffer of fewer than 2 ^ 31 bytes, with a word of fewer than 2 ^ 31, `advanceTo` consumes the bytes before the first place of the word, and all bytes where the word
  -- does not stand.
  pub advance_to_lem :
      (word : List ℕ)
      → size b < 2 ^ 31
      → length word < 2 ^ 31
      → (place : Option ℕ) × IsFirst word (contents b) place
        × ((b' : Buffer) × (advance_to b word ≡ some b')
            × (contents b' ≡ elim place [ none ↦ [] | some n ↦ drop n (contents b) ])
            × IsValid b')
  unfolding advance_to size_of_int
  advance_to_lem word small short =
      let (place, found, first) = find-IsFirst v word small short in
      (place, first, rw found (at place))
    where
      at :
          (place : Option ℕ)
          → (b' : Buffer) × (advance b (size_of_int (place_or_minus_one place)) ≡ some b')
            × (contents b' ≡ elim place [ none ↦ [] | some n ↦ drop n (contents b) ])
            × IsValid b'
      at none =
          let (b', ran, rest, w) = advance_lem (2 ^ 64 - 1) in
          (
            b',
            ran,
            rest
                ∙ drop_of_length-le (2 ^ 64 - 1) (contents b)
                    (omega (arith, length-contents b, size-le-capacity v)),
            w,
          )
      at (some n) = advance_lem n

  -- In a valid buffer of fewer than 2 ^ 31 bytes, `readAll` stores all bytes, oldest first, at the start of a string that is long enough, returns
  -- their number and leaves the buffer empty.
  pub read_all_lem :
      (target : List ℕ)
      → size b < 2 ^ 31
      → size b ≤ length target
      → (b' : Buffer) × (read_all b target
          ≡ some (some (contents b ++ drop (size b) target), size b, b'))
        × (contents b' ≡ [])
        × IsValid b'
  unfolding read_all
  read_all_lem target small enough =
      let (b', ran, x) = read_lem v target (size b) (omega arith) in
      (
        b',
        rw (readable_bytes-eq-size b, int_to_size_lem (size b) small, ran)
            (ap₂ (λ taken k. some (some (taken ++ drop k target), size b, b')) whole (omega arith)),
        x.rest
            ∙ drop_of_length-le (min (size b) (size b)) (contents b)
                (omega (arith, length-contents b)),
        x.valid,
      )
    where
      whole : take (min (size b) (size b)) (contents b) ≡ contents b
      whole =
          take_of_length-le (min (size b) (size b)) (contents b) (omega (arith, length-contents b))
