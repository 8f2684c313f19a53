-- ===== src/Buffer/Find.antt =====
-- `Buffer::find`: the first place of a C string among the bytes that are there.
use mathlib.Core.Option
use native.Mathlib.Nat.{add-zero}
use lp_net.Prelude.{
  ℕ, zero, suc, ◌+◌, ◌%◌, ◌≤◌, ◌≡◌, ◌≢◌, refl, sym, ap, ◌∙◌, arith, List, [], ◌∷◌, Option, none,
  some, Bool, true, false, ◌==◌, if◌then◌else◌, ◌>>=◌, get_or, add_size, ℤ, pos, negsuc, to_int-pos,
  ltb, length, ◌<◌, ◌^◌,
}
use lp_net.Buffer.{
  Buffer, size, index_of, Match, matched, mismatch, ran_out, match_at, find_from, find,
  int_of_place,
}
use lp_net.Buffer.Inv.{IsValid, size-le-capacity, put_pos-size, index_of_lem}
use lp_net.Buffer.Window.{window, add-mod-ne}
use lp_net.Buffer.Copy.{load_cell}
use lp_net.Buffer.Refine.{contents, length-contents}
use lp_net.Buffer.Search.{
  search, IsFirst, search-IsFirst, compare_words, Compared, compare_words-Compared, search_short,
  search_here, search_later,
}

ne-== : (a b : ℕ) → a ≢ b → (a == b) ≡ false
ne-== a b h = ground arith

if-some : (c : Bool) (x y : Match) → (if c then some x else some y) ≡ some (if c then x else y)
if-some true x y = refl
if-some false x y = refl

map_shift :
    (j : ℕ) (o : Option ℕ)
    → Option.map (λ i. suc j + i) o ≡ Option.map (λ i. j + i) (Option.map suc o)
map_shift j none = refl
map_shift j (some i) = ap some (omega arith)

map_zero : (o : Option ℕ) → Option.map (λ i. 0 + i) o ≡ o
map_zero none = refl
map_zero (some i) = ap some (omega arith)

-- What the outer loop does with the way in which the inner one ended.
abbrev after : Buffer → List ℕ → ℕ → ℕ → Match → Option (Option ℕ)
after b word j rounds = elim [
  | matched ↦ some (some j)
  | mismatch ↦ find_from b word (suc j) rounds
  | ran_out ↦ some none
]

after_lem :
    (b : Buffer) (word : List ℕ) (j rounds x : ℕ) (xs : List ℕ) (m : Match)
    → Compared word (x ∷ xs) m
    → find_from b word (suc j) rounds ≡ some (Option.map (λ i. suc j + i) (search word xs))
    → after b word j rounds m ≡ some (Option.map (λ i. j + i) (search word (x ∷ xs)))
after_lem b word j rounds x xs matched h rest =
    rw (search_here word x xs h) (ap (λ i. some (some i)) (omega arith))
after_lem b word j rounds x xs mismatch h rest =
    rest ∙ rw (search_later word x xs h) (ap some (map_shift j (search word xs)))
after_lem b word j rounds x xs ran_out h rest = rw (search_short word (x ∷ xs) h) refl

-- A place as a result, -1 for none.
abbrev pub place_or_minus_one : Option ℕ → ℤ
place_or_minus_one none = negsuc 0
place_or_minus_one (some j) = pos j

module _ {b : Buffer} (v : IsValid b) where
  -- The position that the inner loop reads.
  position :
      (j i : ℕ)
      → j + i ≤ size b
      → i ≤ size b
      → index_of b (add_size j b.get_pos) i ≡ (b.get_pos + (j + i)) % suc b.capacity
  position j i h hi =
      ap (λ p. index_of b p i) {x = add_size j b.get_pos} {y = j + b.get_pos}
        (omega (arith, size-le-capacity v))
      ∙ index_of_lem (j + b.get_pos) i v (omega (arith, size-le-capacity v))
          (omega (arith, size-le-capacity v))
      ∙ ap (λ t. t % suc b.capacity) {x = j + b.get_pos + i} {y = b.get_pos + (j + i)} (omega arith)

  -- The inner loop compares the word with the `k` bytes that are left.
  match_at_lem :
      (word : List ℕ) (j i k : ℕ)
      → j + i + k ≡ size b
      → match_at b j i word
        ≡ some (compare_words word (window b.cells (suc b.capacity) (b.get_pos + (j + i)) k))
  unfolding match_at compare_words
  match_at_lem [] j i k e = refl
  match_at_lem (t ∷ word) j i zero e =
      let ends : index_of b (add_size j b.get_pos) i ≡ b.put_pos =
        position j i (omega arith) (omega arith)
        ∙ ap (λ n. (b.get_pos + n) % suc b.capacity) {x = j + i} {y = size b} (omega arith)
        ∙ put_pos-size v in
      rw ends (ground arith)
  match_at_lem (t ∷ word) j i (suc k) e =
      rw
        (
          position j i (omega arith) (omega arith),
          ne-== (q % suc b.capacity) b.put_pos apart,
          load_cell q v,
          match_at_lem word j (suc i) k (omega arith),
          ap (λ p. window b.cells (suc b.capacity) p k) {x = b.get_pos + (j + suc i)} {y = suc q}
              (omega arith),
        )
        (if-some (get_or b.cells (q % suc b.capacity) 0 == t) _ _)
    where
      q : ℕ
      q = b.get_pos + (j + i)

      apart : q % suc b.capacity ≢ b.put_pos
      apart h =
          add-mod-ne (suc b.capacity) q (suc k) (omega arith) (omega (arith, size-le-capacity v)) (
            ap (λ t. t % suc b.capacity) {x = q + suc k} {y = b.get_pos + size b} (omega arith)
            ∙ put_pos-size v
            ∙ sym h)

  -- The outer loop, with the `rounds` places from `j` on that are left.
  find_from_lem :
      (word : List ℕ) (j rounds : ℕ)
      → j + rounds ≡ size b
      → find_from b word j rounds
        ≡ some (
            Option.map
              (λ i. j + i)
              (search word (window b.cells (suc b.capacity) (b.get_pos + j) rounds)))
  unfolding find_from search
  find_from_lem word j zero e = refl
  find_from_lem word j (suc rounds) e =
      ap (λ o. o >>= after b word j rounds)
        (match_at_lem word j 0 (suc rounds) (omega arith)
          ∙ ap
              (λ n.
                some (
                  compare_words word
                    (window b.cells (suc b.capacity) (b.get_pos + n) (suc rounds))))
              (add-zero j))
      ∙ after_lem b word j rounds _ _ (compare_words word _) (compare_words-Compared word _) (
          find_from_lem word (suc j) rounds (omega arith)
          ∙ ap
              (λ p. some (
                Option.map (λ i. suc j + i)
                  (search word (window b.cells (suc b.capacity) p rounds))))
              (omega arith))

  -- In a valid buffer of fewer than 2 ^ 31 bytes, with a word of fewer than 2 ^ 31, `find` returns the first
  -- place at which the whole word stands among the bytes that are there, and -1 if there is none; no access is
  -- out of bounds.
  pub find-IsFirst :
      (word : List ℕ)
      → size b < 2 ^ 31
      → length word < 2 ^ 31
      → (r : Option ℕ) × (find b word ≡ some (place_or_minus_one r)) × IsFirst word (contents b) r
  unfolding find int_of_place
  find-IsFirst word small short =
      let fits : ltb (length word) (2 ^ 31) ≡ true = ground (arith, short) in
      (
        search word (contents b),
        rw (fits, found)
            (ap some
              (int_of_place_lem (search word (contents b)) (search-IsFirst word (contents b)))),
        search-IsFirst word (contents b),
      )
    where
      found : find_from b word 0 (size b) ≡ some (search word (contents b))
      found =
          find_from_lem word 0 (size b) (omega arith)
          ∙ ap some (map_zero (search word _))
          ∙ ap (λ p. some (search word (window b.cells (suc b.capacity) p (size b))))
              (add-zero b.get_pos)

      int_of_place_lem :
          (r : Option ℕ) → IsFirst word (contents b) r → int_of_place r ≡ place_or_minus_one r
      int_of_place_lem none h = refl
      int_of_place_lem (some j) h = to_int-pos j (omega (arith, h.0, length-contents b, small))
