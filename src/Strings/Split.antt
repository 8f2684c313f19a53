-- ===== src/Strings/Split.antt =====
-- `split`: it ends for a delimiter that is not empty, and its pieces joined again are the text.
use lp_net.Prelude.{
  ℕ, zero, suc, ◌+◌, ◌-◌, ◌<◌, ◌≤◌, ◌≡◌, refl, sym, ap, ap₂, ◌∙◌, arith, List, [], ◌∷◌, ◌++◌,
  Option, none, some, false, ltb, ◌>>=◌, length, take, drop, take-append_length, drop-append_length,
  drop-drop, take_of_length-le, length-drop, length-append, Option-cases, inl, inr, append-nil,
}
use lp_net.Text.{Str, begins, find, find_at, substr}
use lp_net.Text.Find.{Parts, find-Parts, find_byte_absent}
use lp_net.Strings.{split_round, split_from, split}

-- What the loop does with the rest of the text.
pub piece_round : (Str → Option (List Str)) → Str → Str → Option ℕ → Option (List Str)
piece_round rest delim u none = some (u ∷ [])
piece_round rest delim u (some n) =
    rest (drop (n + length delim) u) >>= λ pieces. some (take n u ∷ pieces)

pub pieces_of : ℕ → Str → Str → Option (List Str)
pieces_of zero delim u = none
pieces_of (suc fuel) delim u = piece_round (pieces_of fuel delim) delim u (find delim u)

find_fits : (delim u : Str) (n : ℕ) → find delim u ≡ some n → n + length delim ≤ length u
find_fits delim u n h =
    let p = find-Parts delim u n h in
    omega (
      arith,
      ap length p.whole,
      length-append p.before (delim ++ p.behind),
      length-append delim p.behind,
      p.place,
    )

parts_lem :
    (delim u : Str) (n : ℕ) → Parts delim u n → u ≡ take n u ++ (delim ++ drop (n + length delim) u)
parts_lem delim u n p = p.whole ∙ ap₂ (λ a b. a ++ (delim ++ b)) (sym front) (sym back)
  where
    front : take n u ≡ p.before
    front = ap₂ take (sym p.place) p.whole ∙ take-append_length p.before (delim ++ p.behind)

    back : drop (n + length delim) u ≡ p.behind
    back =
        sym (drop-drop n (length delim) u)
        ∙ ap (drop (length delim))
            (ap₂ drop (sym p.place) p.whole ∙ drop-append_length p.before (delim ++ p.behind))
        ∙ drop-append_length delim p.behind

split_from-eq-pieces_of :
    (fuel : ℕ) (s delim : Str) (start : ℕ)
    → start ≤ length s
    → split_from fuel s delim start ≡ pieces_of fuel delim (drop start s)
unfolding split_from pieces_of find_at substr split_round piece_round
split_from-eq-pieces_of zero s delim start h = refl
split_from-eq-pieces_of (suc fuel) s delim start h =
    elim (Option-cases (find delim (drop start s))) [
      | inl absent ↦
          rw (inside, absent, split_round, inside, piece_round)
            (ap (λ t. some (t ∷ []))
              (take_of_length-le (length s) (drop start s) (omega (arith, length-drop start s))))
      | inr (n, found) ↦
          rw
            (
              inside,
              found,
              split_round,
              inside,
              piece_round,
              drop-drop start (n + length delim) s,
              ← split_from-eq-pieces_of fuel s delim (start + (n + length delim))
                  (omega (arith, find_fits delim (drop start s) n found, length-drop start s)),
            )
            (ap₂
              (λ p k. split_from fuel s delim p >>= λ pieces. some (take k (drop start s) ∷ pieces))
              {x = start + n + length delim} {y = start + (n + length delim)}
              {u = start + n - start} {v = n} (omega arith) (omega arith))
    ]
  where
    inside : ltb (length s) start ≡ false
    inside = ground arith

-- The pieces with the delimiter between them.
abbrev pub join_rest : Str → List Str → Str
join_rest delim [] = []
join_rest delim (p ∷ pieces) = delim ++ (p ++ join_rest delim pieces)

abbrev pub join : Str → List Str → Str
join delim [] = []
join delim (p ∷ pieces) = p ++ join_rest delim pieces

pieces_of_join :
    (fuel : ℕ) (delim u : Str)
    → 0 < length delim
    → length u < fuel
    → (p : Str) × (pieces : List Str) × (pieces_of fuel delim u ≡ some (p ∷ pieces))
      × (p ++ join_rest delim pieces ≡ u)
unfolding pieces_of piece_round
pieces_of_join zero delim u some_delim enough = absurd (omega arith)
pieces_of_join (suc fuel) delim u some_delim enough = elim (Option-cases (find delim u)) [
  | inl absent ↦ (u, [], rw (absent, piece_round) refl, append-nil u)
  | inr (n, found) ↦
      let parts = find-Parts delim u n found in
      let (p, pieces, ran, joined) =
        pieces_of_join fuel delim (drop (n + length delim) u) some_delim
          (omega (arith, find_fits delim u n found, length-drop (n + length delim) u)) in
      (
        take n u,
        p ∷ pieces,
        rw (found, piece_round, ran) refl,
        ap (λ t. take n u ++ (delim ++ t)) joined ∙ sym (parts_lem delim u n parts),
      )
]

-- For a delimiter that is not empty, `split` ends within one round more than the text has bytes, and
-- its pieces with the delimiter between them are the text.
pub split-join :
    (fuel : ℕ) (s delim : Str)
    → 0 < length delim
    → length s < fuel
    → (pieces : List Str) × (split fuel s delim ≡ some pieces) × (join delim pieces ≡ s)
unfolding split
split-join fuel s delim some_delim enough =
    let (p, pieces, ran, joined) = pieces_of_join fuel delim s some_delim enough in
    (p ∷ pieces, split_from-eq-pieces_of fuel s delim 0 (omega arith) ∙ ran, joined)

pieces_of-empty : (fuel : ℕ) (u : Str) → pieces_of fuel [] u ≡ none
unfolding pieces_of piece_round find begins
pieces_of-empty zero u = refl
pieces_of-empty (suc fuel) [] = rw (pieces_of-empty fuel []) refl
pieces_of-empty (suc fuel) (c ∷ u) = rw (pieces_of-empty fuel (c ∷ u)) refl

-- An empty delimiter is found at once, again and again: no number of rounds is enough.
pub split-empty : (fuel : ℕ) (s : Str) → split fuel s [] ≡ none
unfolding split
split-empty fuel s = split_from-eq-pieces_of fuel s [] 0 (omega arith) ∙ pieces_of-empty fuel s

-- The byte stands in none of the texts.
abbrev pub Free : ℕ → List Str → Type 0
Free c [] = Unit
Free c (p ∷ pieces) = (find (c ∷ []) p ≡ none) × Free c pieces

pieces_of-join :
    (fuel c : ℕ) (pieces : List Str) (p : Str)
    → Free c (p ∷ pieces)
    → length pieces < fuel
    → pieces_of fuel (c ∷ []) (p ++ join_rest (c ∷ []) pieces) ≡ some (p ∷ pieces)
unfolding pieces_of piece_round
pieces_of-join zero c pieces p free enough = absurd (omega arith)
pieces_of-join (suc fuel) c [] p free enough =
    ap (pieces_of (suc fuel) (c ∷ [])) (append-nil p) ∙ rw (free.0, piece_round) refl
pieces_of-join (suc fuel) c (q ∷ pieces) p free enough =
    rw
      (
        find_byte_absent c p (q ++ join_rest (c ∷ []) pieces) free.0,
        piece_round,
        ← drop-drop (length p) 1 (p ++ (c ∷ (q ++ join_rest (c ∷ []) pieces))),
        drop-append_length p (c ∷ (q ++ join_rest (c ∷ []) pieces)),
        take-append_length p (c ∷ (q ++ join_rest (c ∷ []) pieces)),
        pieces_of-join fuel c pieces q free.1 (omega arith),
      )
      refl

-- Texts without a byte, joined with that byte between them, are what `split` gives back.
pub split-join_byte :
    (fuel c : ℕ) (p : Str) (pieces : List Str)
    → Free c (p ∷ pieces)
    → length pieces < fuel
    → split fuel (join (c ∷ []) (p ∷ pieces)) (c ∷ []) ≡ some (p ∷ pieces)
unfolding split
split-join_byte fuel c p pieces free enough =
    split_from-eq-pieces_of fuel (join (c ∷ []) (p ∷ pieces)) (c ∷ []) 0 (omega arith)
    ∙ pieces_of-join fuel c pieces p free enough
