-- ===== src/Text/Find.antt =====
-- Where `find` finds a word, and equality of texts.
use mathlib.Core.Option
use mathlib.Core.Path.{subst}
use lp_net.Prelude.{
  ℕ, suc, ◌≤◌, ◌≡◌, refl, ap, arith, [], ◌∷◌, ◌++◌, Option, none, some, true, Bool-cases, inl, inr,
  length, drop,
}
use lp_net.Text.{Str, same, begins, find}

pub same_refl : (s : Str) → same s s ≡ true
unfolding same
same_refl [] = refl
same_refl (c ∷ s) = ground (arith, same_refl s)

pub eq_of_same : (s t : Str) → same s t ≡ true → s ≡ t
unfolding same
eq_of_same [] [] h = refl
eq_of_same [] (y ∷ t) h = ground arith
eq_of_same (x ∷ s) [] h = ground arith
eq_of_same (x ∷ s) (y ∷ t) h = ground (arith, eq_of_same s t)

pub begins-drop :
    (word s : Str)
    → begins word s ≡ true
    → (length word ≤ length s) × (s ≡ word ++ drop (length word) s)
unfolding begins
begins-drop [] s h = (omega arith, refl)
begins-drop (w ∷ word) [] h = ground arith
begins-drop (w ∷ word) (c ∷ s) h = ground (arith, begins-drop word s)

-- The text before the place, the word, and the text behind it.
pub record Parts (word s : Str) (i : ℕ) : Type 0 where
  pub before : Str
  pub behind : Str
  pub whole : s ≡ before ++ (word ++ behind)
  pub place : length before ≡ i

at_start : (word s : Str) → begins word s ≡ true → Parts word s 0
at_start word s h = record {
  before = [];
  behind = drop (length word) s;
  whole = (begins-drop word s h).1;
  place = refl;
}

later : (word : Str) (c : ℕ) (s : Str) (i : ℕ) → Parts word s i → Parts word (c ∷ s) (suc i)
later word c s i p = record {
  before = c ∷ p.before;
  behind = p.behind;
  whole = ap (◌∷◌ c) p.whole;
  place = ap suc p.place;
}

abbrev Placed : Str → Str → Option ℕ → Type 0
Placed word s none = Unit
Placed word s (some i) = Parts word s i

Placed-later :
    (word : Str) (c : ℕ) (s : Str) (o : Option ℕ)
    → Placed word s o
    → Placed word (c ∷ s) (Option.map suc o)
Placed-later word c s none p = tt
Placed-later word c s (some i) p = later word c s i p

find-Placed : (word s : Str) → Placed word s (find word s)
unfolding find
find-Placed word [] = elim (Bool-cases (begins word [])) [
  | inl e ↦ rw e (at_start word [] e)
  | inr e ↦ rw e tt
]
find-Placed word (c ∷ s) = elim (Bool-cases (begins word (c ∷ s))) [
  | inl e ↦ rw e (at_start word (c ∷ s) e)
  | inr e ↦ rw e (Placed-later word c s (find word s) (find-Placed word s))
]

pub find-Parts : (word s : Str) (i : ℕ) → find word s ≡ some i → Parts word s i
find-Parts word s i h = subst (Placed word s) h (find-Placed word s)

-- A word that does not stand in a text does not stand in what the text begins with.
begins-append : (word s t : Str) → begins word s ≡ true → begins word (s ++ t) ≡ true
unfolding begins
begins-append [] s t h = refl
begins-append (w ∷ word) [] t h = ground arith
begins-append (w ∷ word) (c ∷ s) t h = ground (arith, begins-append word s t)

-- A word of one byte.
pub find_byte_absent :
    (c : ℕ) (s t : Str) → find (c ∷ []) s ≡ none → find (c ∷ []) (s ++ (c ∷ t)) ≡ some (length s)
unfolding find begins
find_byte_absent c [] t h = ground arith
find_byte_absent c (x ∷ s) t h = ground (arith, find_byte_absent c s t)
