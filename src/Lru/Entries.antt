-- ===== src/Lru/Entries.antt =====
-- Entry lists: what a key finds, the list without it, and lists without a key twice.
use lp_net.Prelude.{
  ℕ, zero, suc, ◌+◌, ◌≤◌, ◌≡◌, ◌≢◌, refl, ap, arith, List, [], ◌∷◌, Option, none, some, ◌>>=◌, ite,
  if_pos, if_neg, length, take, map,
}
use lp_net.Lru.{take_out, pop_back}

module _ {ℓ} {K V : Type ℓ} where
  abbrev pub keys : List (K × V) → List K
  keys = map (λ e. e.0)

  pub pop_back-take : (n : ℕ) (l : List (K × V)) → length l ≡ suc n → pop_back l ≡ some (take n l)
  unfolding pop_back
  pop_back-take zero (e ∷ []) h = refl
  pop_back-take (suc n) (e ∷ f ∷ l) h =
      ap (λ o. o >>= λ rest. some (e ∷ rest)) (pop_back-take n (f ∷ l) (omega arith))
  pop_back-take zero [] h = absurd (omega arith)
  pop_back-take (suc n) [] h = absurd (omega arith)
  pop_back-take zero (e ∷ f ∷ l) h = absurd (omega arith)
  pop_back-take (suc n) (e ∷ []) h = absurd (omega arith)

module _ {ℓ} {K V : Type ℓ} (dec : Discrete K) where
  unfoldable pub find : K → List (K × V) → Option V
  find q [] = none
  find q (e ∷ l) = ite (dec e.0 q) (some e.1) (find q l)

  unfoldable pub without : K → List (K × V) → List (K × V)
  without q [] = []
  without q (e ∷ l) = ite (dec e.0 q) l (e ∷ without q l)

  -- No key stands twice.
  abbrev pub Distinct : List (K × V) → Type ℓ
  Distinct [] = Unit
  Distinct (e ∷ l) = (find e.0 l ≡ none) × Distinct l

  module _ (q : K) where
    -- The loop of the methods finds what `find` finds, and leaves the list without it.
    pub take_out_found :
        (l : List (K × V)) (v : V)
        → find q l ≡ some v
        → take_out dec q l ≡ some ((q, v), without q l)
    unfolding take_out find without
    take_out_found [] v h = ground arith
    take_out_found (e ∷ l) v h = ground (arith, take_out_found l v)

    pub take_out_absent : (l : List (K × V)) → find q l ≡ none → take_out dec q l ≡ none
    unfolding take_out find
    take_out_absent [] h = refl
    take_out_absent (e ∷ l) h = ground (arith, take_out_absent l)

    pub without_absent : (l : List (K × V)) → find q l ≡ none → without q l ≡ l
    unfolding find without
    without_absent [] h = refl
    without_absent (e ∷ l) h = ground (arith, without_absent l)

    pub length-without :
        (l : List (K × V)) (v : V) → find q l ≡ some v → length (without q l) + 1 ≡ length l
    unfolding find without
    length-without [] v h = ground arith
    length-without (e ∷ l) v h = ground (arith, length-without l v)

    pub length-without-le : (l : List (K × V)) → length (without q l) ≤ length l
    unfolding without
    length-without-le [] = omega arith
    length-without-le (e ∷ l) = ground (arith, length-without-le l)

  pub find-without_ne : (q k : K) (l : List (K × V)) → q ≢ k → find k (without q l) ≡ find k l
  unfolding find without
  find-without_ne q k [] h = refl
  find-without_ne q k (e ∷ l) h = ground (arith, find-without_ne q k l)

  pub find-without_absent :
      (q k : K) (l : List (K × V)) → find k l ≡ none → find k (without q l) ≡ none
  unfolding find without
  find-without_absent q k [] h = refl
  find-without_absent q k (e ∷ l) h = ground (arith, find-without_absent q k l)

  pub find-without_self : (q : K) (l : List (K × V)) → Distinct l → find q (without q l) ≡ none
  unfolding find without
  find-without_self q [] d = refl
  find-without_self q (e ∷ l) d = ground (arith, find-without_self q l)

  pub without-Distinct : (q : K) (l : List (K × V)) → Distinct l → Distinct (without q l)
  unfolding without
  without-Distinct q [] d = tt
  without-Distinct q (e ∷ l) d = elim (dec e.0 q) [
    | yes same ↦ rw (if_pos (dec e.0 q) same) d.1
    | no other ↦
        rw (if_neg (dec e.0 q) other) (find-without_absent q e.0 l d.0, without-Distinct q l d.1)
  ]

  pub find-take_absent :
      (q : K) (n : ℕ) (l : List (K × V)) → find q l ≡ none → find q (take n l) ≡ none
  unfolding find
  find-take_absent q zero l h = refl
  find-take_absent q (suc n) [] h = refl
  find-take_absent q (suc n) (e ∷ l) h = ground (arith, find-take_absent q n l)

  pub take-Distinct : (n : ℕ) (l : List (K × V)) → Distinct l → Distinct (take n l)
  take-Distinct zero l d = tt
  take-Distinct (suc n) [] d = tt
  take-Distinct (suc n) (e ∷ l) d = (find-take_absent e.0 n l d.0, take-Distinct n l d.1)
