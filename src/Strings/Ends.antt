-- ===== src/Strings/Ends.antt =====
-- `start_with`, `end_with` and `find_case`.
use mathlib.Core.List.{reverse, reverse-cons}
use lp_net.Prelude.{
  ℕ, zero, suc, ◌+◌, ◌-◌, ◌<◌, ◌≤◌, ◌≡◌, ◌≢◌, refl, sym, ap, ◌∙◌, arith, [], ◌∷◌, ◌++◌, none, some,
  Bool, true, false, not, ◌==◌, ltb, if◌then◌else◌, length, load, drop, drop_of_length-le, get_or,
  get_elem?-eq-get_or, drop-get_or, Bool-cases, inl, inr, dec_lt, length-append, ltb→lt, lt→ltb,
}
use lp_net.Text.{Str, begins}
use lp_net.Strings.{start_from, start_with, end_from, end_with, lower, find_case_from, find_case}

pick : (t x : Bool) → (if not t then some false else some x) ≡ some (if t then x else false)
pick true x = refl
pick false x = refl

-- The loops, on what is left of the word.
start_from_lem :
    (s word : Str) (i rounds : ℕ)
    → i + rounds ≡ length word
    → length word ≤ length s
    → start_from s word i rounds ≡ some (begins (drop i word) (drop i s))
unfolding start_from begins
start_from_lem s word i zero e h =
    ap (λ w. some (begins w (drop i s))) (sym (drop_of_length-le i word (omega arith)))
start_from_lem s word i (suc rounds) e h =
    rw
      (
        get_elem?-eq-get_or s i 0 (omega arith),
        get_elem?-eq-get_or word i 0 (omega arith),
        start_from_lem s word (suc i) rounds (omega arith) h,
        drop-get_or i word 0 (omega arith),
        drop-get_or i s 0 (omega arith),
      )
      (pick (get_or s i 0 == get_or word i 0) (begins (drop (suc i) word) (drop (suc i) s)))

ne-== : (a b : ℕ) → a ≢ b → (a == b) ≡ false
ne-== a b h = ground arith

begins_short : (word s : Str) → length s < length word → begins word s ≡ false
unfolding begins
begins_short [] s h = absurd (omega arith)
begins_short (w ∷ word) [] h = refl
begins_short (w ∷ word) (c ∷ s) h = ground (arith, begins_short word s)

-- `start_with` says whether the text begins with the word, and reads no byte out of range.
pub start_with_lem : (s word : Str) → start_with s word ≡ some (begins word s)
unfolding start_with
start_with_lem s word = elim (Bool-cases (ltb (length s) (length word))) [
  | inl short ↦
      rw short (ap some (sym (begins_short word s (ltb→lt (length s) (length word) short))))
  | inr enough ↦ rw enough (start_from_lem s word 0 (length word) (omega arith) (ground arith))
]

load-append_left : (xs ys : Str) (i : ℕ) → i < length xs → load (xs ++ ys) i ≡ load xs i
load-append_left [] ys i h = absurd (omega arith)
load-append_left (x ∷ xs) ys zero h = refl
load-append_left (x ∷ xs) ys (suc i) h = load-append_left xs ys i (omega arith)

load-append_at : (xs : Str) (y i : ℕ) → i ≡ length xs → load (xs ++ y ∷ []) i ≡ some y
load-append_at [] y zero h = refl
load-append_at [] y (suc i) h = absurd (omega arith)
load-append_at (x ∷ xs) y zero h = absurd (omega arith)
load-append_at (x ∷ xs) y (suc i) h = load-append_at xs y i (omega arith)

length-reverse : (s : Str) → length (reverse s) ≡ length s
length-reverse [] = refl
length-reverse (c ∷ s) =
    ap length (reverse-cons c s)
    ∙ omega (arith, length-append (reverse s) (c ∷ []), length-reverse s)

load-reverse : (s : Str) (i : ℕ) → i < length s → load (reverse s) i ≡ load s (length s - 1 - i)
load-reverse [] i h = absurd (omega arith)
load-reverse (c ∷ s) i h = elim (dec_lt i (length s)) [
  | yes left ↦
      ap (λ t. load t i) (reverse-cons c s)
      ∙ load-append_left (reverse s) (c ∷ []) i (omega (arith, length-reverse s))
      ∙ load-reverse s i left
      ∙ ap (load (c ∷ s)) {x = suc (length s - 1 - i)} (omega arith)
  | no right ↦
      ap (λ t. load t i) (reverse-cons c s)
      ∙ load-append_at (reverse s) c i (omega (arith, length-reverse s))
      ∙ ap (load (c ∷ s)) {x = 0} (omega arith)
]

end_from_lem :
    (s word : Str) (i rounds : ℕ)
    → i + rounds ≤ length s
    → end_from s word i rounds ≡ start_from (reverse s) word i rounds
unfolding end_from start_from
end_from_lem s word i zero h = refl
end_from_lem s word i (suc rounds) h =
    rw (load-reverse s i (omega arith), end_from_lem s word (suc i) rounds (omega arith)) refl

-- `end_with` says whether the text read backwards begins with the word: the word is compared with
-- the end of the text in the wrong direction.
pub end_with_lem : (s word : Str) → end_with s word ≡ some (begins word (reverse s))
unfolding end_with
end_with_lem s word = elim (Bool-cases (ltb (length s) (length word))) [
  | inl short ↦ rw short (
      ap some (
        sym (
          begins_short word (reverse s)
            (omega (arith, length-reverse s, ltb→lt (length s) (length word) short)))))
  | inr enough ↦ rw enough (
      end_from_lem s word 0 (length word) (ground arith)
      ∙ start_from_lem (reverse s) word 0 (length word) (omega arith)
          (ground (arith, length-reverse s)))
]

find_case_stuck_at :
    (fuel : ℕ) (s target : Str) (i : ℕ)
    → i < length s
    → 0 < length target
    → lower (get_or s i 0) ≢ lower (get_or target 0 0)
    → find_case_from fuel s target i 0 ≡ none
unfolding find_case_from
find_case_stuck_at zero s target i hi ht differ = refl
find_case_stuck_at (suc fuel) s target i hi ht differ =
    rw
      (
        lt→ltb i (length s) hi,
        lt→ltb 0 (length target) ht,
        get_elem?-eq-get_or s i 0 hi,
        get_elem?-eq-get_or target 0 0 ht,
        ne-== (lower (get_or s i 0)) (lower (get_or target 0 0)) differ,
      )
      (find_case_stuck_at fuel s target i hi ht differ)

-- Where the first bytes of text and target differ, whatever their case, `find_case` never ends: no
-- number of rounds is enough.
pub find_case_stuck :
    (fuel start : ℕ) (s target : Str)
    → 0 < length s
    → 0 < length target
    → lower (get_or s 0 0) ≢ lower (get_or target 0 0)
    → find_case fuel s target start ≡ none
unfolding find_case
find_case_stuck fuel start s target hs ht differ = find_case_stuck_at fuel s target 0 hs ht differ
