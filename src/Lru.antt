-- ===== src/Lru.antt =====
-- util/buffer/Replacer.h and Replacer.cpp: `LRUReplacer`, most recently used entry first. Each method
-- runs under its mutex, so it is one step; it returns what it returns, what it stores through the
-- reference `value`, and the new state.
pub mod Entries
pub mod Order
pub mod History
pub mod Removal
mod Tests
use lp_net.Prelude.{
  ℕ, suc, List, [], ◌∷◌, Option, none, some, Bool, true, false, ite, leb, if◌then◌else◌, ◌>>=◌,
  length,
}

pub record LruReplacer {ℓ} (K V : Type ℓ) : Type ℓ where
  pub capacity : ℕ
  pub caches : List (K × V)

pub init {ℓ} : {K V : Type ℓ} → ℕ → LruReplacer K V
init capacity = record { capacity = capacity; caches = [] }

pub size {ℓ} : {K V : Type ℓ} → LruReplacer K V → ℕ
size r = length r.caches

-- `caches_.pop_back()`, which wants an element.
pub pop_back {ℓ} : {A : Type ℓ} → List A → Option (List A)
pop_back [] = none
pop_back (x ∷ []) = some []
pop_back (x ∷ y ∷ l) = pop_back (y ∷ l) >>= λ rest. some (x ∷ rest)

module _ {ℓ} {K V : Type ℓ} (dec : Discrete K) where
  -- The loop for the iterator with the key: the entry there, and the list once it is erased.
  pub take_out : K → List (K × V) → Option ((K × V) × List (K × V))
  take_out key [] = none
  take_out key (e ∷ l) =
      ite (dec e.0 key) (some (e, l)) (take_out key l >>= λ found. some (found.0, e ∷ found.1))

  -- The branch of `access` in which the loop finds no key.
  pub insert : LruReplacer K V → K → V → Option (LruReplacer K V)
  insert r key value =
      (if leb r.capacity (length r.caches) then pop_back r.caches else some r.caches) >>= λ kept.
      some (record r { caches = (key, value) ∷ kept })

  pub access : LruReplacer K V → K → V → Option (Bool × V × LruReplacer K V)
  access r key value = elim (take_out key r.caches) [
    | some (e, rest) ↦ some (true, e.1, record r { caches = e ∷ rest })
    | none ↦ insert r key value >>= λ r'. some (false, value, r')
  ]

  pub evite : LruReplacer K V → K → V → Bool × V × LruReplacer K V
  evite r key value = elim (take_out key r.caches) [
    | some (e, rest) ↦ (true, e.1, record r { caches = rest })
    | none ↦ (false, value, r)
  ]

  pub remove : LruReplacer K V → K → Bool × LruReplacer K V
  remove r key = elim (take_out key r.caches) [
    | some (e, rest) ↦ (true, record r { caches = rest })
    | none ↦ (false, r)
  ]
