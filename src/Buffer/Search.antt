-- ===== src/Buffer/Search.antt =====
-- The first occurrence of a word in a list of bytes.
use mathlib.Core.Option
use lp_net.Prelude.{
  ℕ, zero, suc, ◌<◌, ◌≡◌, refl, arith, List, [], ◌∷◌, Option, none, some, Bool, true, false,
  if◌then◌else◌, ◌==◌, length, drop, Bool-cases, inl, inr,
}
use lp_net.Buffer.{Match, matched, mismatch, ran_out}

unfoldable pub starts_with : List ℕ → List ℕ → Bool
starts_with [] xs = true
starts_with (t ∷ word) [] = false
starts_with (t ∷ word) (x ∷ xs) = if x == t then starts_with word xs else false

unfoldable pub search : List ℕ → List ℕ → Option ℕ
search word [] = none
search word (x ∷ xs) = if starts_with word (x ∷ xs) then some 0 else Option.map suc (search word xs)

-- `r` is the first place before the end at which the word stands, if there is one.
abbrev pub IsFirst : List ℕ → List ℕ → Option ℕ → Type 0
IsFirst word xs none = (i : ℕ) → i < length xs → starts_with word (drop i xs) ≡ false
IsFirst word xs (some j) =
    (j < length xs)
    × (starts_with word (drop j xs) ≡ true)
    × ((i : ℕ) → i < j → starts_with word (drop i xs) ≡ false)

IsFirst-later :
    (word : List ℕ) (x : ℕ) (xs : List ℕ) (r : Option ℕ)
    → starts_with word (x ∷ xs) ≡ false
    → IsFirst word xs r
    → IsFirst word (x ∷ xs) (Option.map suc r)
IsFirst-later word x xs none e h = elim [ zero ↦ λ _. e | suc i ↦ λ hi. h i (omega arith) ]
IsFirst-later word x xs (some j) e h =
    (omega (arith, h.0), h.1, elim [ zero ↦ λ _. e | suc i ↦ λ hi. h.2 i (omega arith) ])

pub search-IsFirst : (word xs : List ℕ) → IsFirst word xs (search word xs)
unfolding search
search-IsFirst word [] = λ i h. absurd (omega arith)
search-IsFirst word (x ∷ xs) = elim (Bool-cases (starts_with word (x ∷ xs))) [
  | inl e ↦ rw e (omega arith, e, λ i h. absurd (omega arith))
  | inr e ↦ rw e (IsFirst-later word x xs _ e (search-IsFirst word xs))
]

-- How the inner loop ends on a list of bytes.
unfoldable pub compare_words : List ℕ → List ℕ → Match
compare_words [] xs = matched
compare_words (t ∷ word) [] = ran_out
compare_words (t ∷ word) (x ∷ xs) = if x == t then compare_words word xs else mismatch

abbrev pub Compared : List ℕ → List ℕ → Match → Type 0
Compared word xs matched = starts_with word xs ≡ true
Compared word xs mismatch = starts_with word xs ≡ false
Compared word xs ran_out = length xs < length word

Compared-cons :
    (t x : ℕ) (word xs : List ℕ) (m : Match)
    → (x == t) ≡ true
    → Compared word xs m
    → Compared (t ∷ word) (x ∷ xs) m
unfolding starts_with
Compared-cons t x word xs matched e h = rw e h
Compared-cons t x word xs mismatch e h = rw e h
Compared-cons t x word xs ran_out e h = omega arith

pub compare_words-Compared : (word xs : List ℕ) → Compared word xs (compare_words word xs)
unfolding compare_words starts_with
compare_words-Compared [] xs = refl
compare_words-Compared (t ∷ word) [] = omega arith
compare_words-Compared (t ∷ word) (x ∷ xs) = elim (Bool-cases (x == t)) [
  | inl e ↦ rw e (Compared-cons t x word xs _ e (compare_words-Compared word xs))
  | inr e ↦ rw e (rw e refl)
]

-- A word does not stand where fewer bytes are left.
pub starts_with_short : (word xs : List ℕ) → length xs < length word → starts_with word xs ≡ false
unfolding starts_with
starts_with_short [] xs h = absurd (omega arith)
starts_with_short (t ∷ word) [] h = refl
starts_with_short (t ∷ word) (x ∷ xs) h = ground (arith, starts_with_short word xs)

pub search_short : (word xs : List ℕ) → length xs < length word → search word xs ≡ none
unfolding search
search_short word [] h = refl
search_short word (x ∷ xs) h =
    rw (starts_with_short word (x ∷ xs) h, search_short word xs (omega arith)) refl

pub search_here :
    (word : List ℕ) (x : ℕ) (xs : List ℕ)
    → starts_with word (x ∷ xs) ≡ true
    → search word (x ∷ xs) ≡ some 0
unfolding search
search_here word x xs e = rw e refl

pub search_later :
    (word : List ℕ) (x : ℕ) (xs : List ℕ)
    → starts_with word (x ∷ xs) ≡ false
    → search word (x ∷ xs) ≡ Option.map suc (search word xs)
unfolding search
search_later word x xs e = rw e refl
