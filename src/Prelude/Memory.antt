-- ===== src/Prelude/Memory.antt =====
-- An allocated array: a load or a store out of its bounds is a fault, `none`.
use Prim.Native.Nat.{ℕ, zero, suc, ◌<◌}
use mathlib.Core.Path.{◌≡◌, refl, ap}
use mathlib.Core.List.{List, [], ◌∷◌}
use mathlib.Core.Option.{Option, none, some}
use native.Mathlib.Omega.{arith}
use lp_net.Prelude.Tests.{◌>>=◌}
use lp_net.Prelude.Lists.{length, get_elem?, set}

module _ {ℓ} {A : Type ℓ} where
  abbrev pub load : List A → ℕ → Option A
  load = get_elem?

  abbrev pub store : List A → ℕ → A → Option (List A)
  store [] i v = none
  store (x ∷ xs) zero v = some (v ∷ xs)
  store (x ∷ xs) (suc i) v = store xs i v >>= λ ys. some (x ∷ ys)

module _ {ℓ} {A : Type ℓ} where
  pub store-set : (xs : List A) (i : ℕ) (v : A) → i < length xs → store xs i v ≡ some (set xs i v)
  store-set [] i v h = absurd (omega arith)
  store-set (x ∷ xs) zero v h = refl
  store-set (x ∷ xs) (suc i) v h =
      ap (λ o. o >>= λ ys. some (x ∷ ys)) (store-set xs i v (omega arith))

  pub store_out : (xs : List A) (i : ℕ) (v : A) → length xs < suc i → store xs i v ≡ none
  store_out [] i v h = refl
  store_out (x ∷ xs) zero v h = absurd (omega arith)
  store_out (x ∷ xs) (suc i) v h =
      ap (λ o. o >>= λ ys. some (x ∷ ys)) (store_out xs i v (omega arith))
