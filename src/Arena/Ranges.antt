-- ===== src/Arena/Ranges.antt =====
-- Ranges of addresses, and what keeps the ranges that an arena gives out apart.
use lp_net.Prelude.{ℕ, ◌+◌, ◌≤◌, ◌<◌, ◌≡◌, ◌⊎◌, inl, inr, arith, List, [], ◌∷◌}
use lp_net.Arena.{Arena}

-- The first address, and the number of bytes.
abbrev pub Range : Type 0
Range = ℕ × ℕ

abbrev pub Within : ℕ → Range → Type 0
Within x (p, n) = (p ≤ x) × (x < p + n)

abbrev pub Covered : ℕ → List Range → Type 0
Covered x [] = ⊥
Covered x (r ∷ rs) = Within x r ⊎ Covered x rs

abbrev pub Apart : Range → Range → Type 0
Apart r s = (x : ℕ) → Within x r → Within x s → ⊥

-- What is promised of a block that `new` returns: no byte of it belongs to an earlier block.
abbrev pub Fresh : Range → List Range → Type 0
Fresh r owned = (x : ℕ) → Within x r → Covered x owned → ⊥

abbrev pub All {ℓ} : {A : Type 0} → (A → Type ℓ) → List A → Type ℓ
All P [] = Unit
All P (x ∷ xs) = P x × All P xs

All-map {ℓ κ} :
    {A : Type 0} {P : A → Type ℓ} {Q : A → Type κ}
    → ((x : A) → P x → Q x)
    → (xs : List A) → All P xs
    → All Q xs
All-map f [] h = tt
All-map f (x ∷ xs) h = (f x h.0, All-map f xs h.1)

abbrev pub Separate : List Range → Type 0
Separate [] = Unit
Separate (r ∷ rs) = All (Apart r) rs × Separate rs

abbrev pub free : Arena → Range
free a = (a.alloc_ptr, a.alloc_bytes_remaining)

-- `f` is the free range, `owned` are the blocks that `new` returned, `given` the ranges that callers
-- hold.
pub record Inv (f : Range) (owned given : List Range) : Type 0 where
  pub free_owned : (x : ℕ) → Within x f → Covered x owned
  pub given_owned : All (λ g. (x : ℕ) → Within x g → Covered x owned) given
  pub given_apart : All (λ g. Apart g f) given
  pub separate : Separate given

-- The arena at the start.
pub empty-Inv : (p : ℕ) → Inv (p, 0) [] []
empty-Inv p = record {
  free_owned = λ x w. absurd (omega arith);
  given_owned = tt;
  given_apart = tt;
  separate = tt;
}

module _ (p m : ℕ) (owned given : List Range) (v : Inv (p, m) owned given) where
  -- A piece of the free range is given out, behind some bytes that are skipped.
  pub carve :
      (q n p' m' : ℕ) → p ≤ q → p' ≡ q + n → p' + m' ≡ p + m → Inv (p', m') owned ((q, n) ∷ given)
  carve q n p' m' hq hp hm = record {
    free_owned = λ x w. v.free_owned x (omega arith);
    given_owned = (λ x w. v.free_owned x (omega arith), v.given_owned);
    given_apart = (
      λ x w u. omega arith,
      All-map (λ g apart x w u. apart x w (omega arith)) given v.given_apart,
    );
    separate = (All-map (λ g apart x w u. apart x u (omega arith)) given v.given_apart, v.separate);
  }

  -- A whole new block is given out.
  pub give_block : (b : Range) → Fresh b owned → Inv (p, m) (b ∷ owned) (b ∷ given)
  give_block b new = record {
    free_owned = λ x w. inr (v.free_owned x w);
    given_owned = (λ x w. inl w, All-map (λ g inside x w. inr (inside x w)) given v.given_owned);
    given_apart = (λ x w u. new x w (v.free_owned x u), v.given_apart);
    separate = (All-map (λ g inside x w u. new x w (inside x u)) given v.given_owned, v.separate);
  }

  -- A new block becomes the free range.
  pub take_block : (q n : ℕ) → Fresh (q, n) owned → Inv (q, n) ((q, n) ∷ owned) given
  take_block q n new = record {
    free_owned = λ x w. inl w;
    given_owned = All-map (λ g inside x w. inr (inside x w)) given v.given_owned;
    given_apart = All-map (λ g inside x w u. new x u (inside x w)) given v.given_owned;
    separate = v.separate;
  }
