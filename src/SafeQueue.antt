-- ===== src/SafeQueue.antt =====
-- util/SafeQueue.h: `SafeQueue<T>`. Each method runs under the mutex, so it is one step.
pub mod Order
mod Tests
use lp_net.Prelude.{
  ℕ, List, [], ◌∷◌, ◌++◌, Option, none, some, Bool, true, false, ◌==◌, if◌then◌else◌, length,
}

-- `q_`, oldest element first.
pub record SafeQueue {ℓ} (A : Type ℓ) : Type ℓ where
  pub capacity : ℕ
  pub q : List A

module _ {ℓ} {A : Type ℓ} where
  unfoldable pub init : ℕ → SafeQueue A
  init capacity = record { capacity = capacity; q = [] }

  pub size : SafeQueue A → ℕ
  size s = length s.q

  empty_list : List A → Bool
  empty_list [] = true
  empty_list (x ∷ xs) = false

  unfoldable pub empty : SafeQueue A → Bool
  unfolding empty_list
  empty s = empty_list s.q

  pub full : SafeQueue A → Bool
  unfolding size
  full s = size s == s.capacity

  unfoldable pub push : SafeQueue A → A → Bool × SafeQueue A
  unfolding full
  push s x = if full s then (false, s) else (true, record s { q = s.q ++ x ∷ [] })

  -- The element that goes through the reference, if there is one.
  unfoldable pub pop : SafeQueue A → Bool × Option A × SafeQueue A
  pop s = elim s.q [ [] ↦ (false, none, s) | x ∷ rest ↦ (true, some x, record s { q = rest }) ]

  pub drop_front : SafeQueue A → Bool × SafeQueue A
  drop_front s = elim s.q [ [] ↦ (false, s) | x ∷ rest ↦ (true, record s { q = rest }) ]
