-- ===== src/Timer/Heap/Order.antt =====
-- The order of the heap, and what a swap does to it.
use mathlib.Core.List.{Perm}
use mathlib.Core.List.Perm
use mathlib.Core.Path.{subst}
use lp_net.Prelude.{
  ==_iff, ℕ, zero, suc, ◌-◌, ◌/◌, ◌≤◌, ◌<◌, ◌≡◌, refl, ap, ◌∙◌, arith, List, [], ◌∷◌, some,
  Bool-cases, inl, inr, ltb, ◌==◌, if◌then◌else◌, load, set, get_or, length, length-set,
  get_or-set_self, get_or-set_ne, get_elem?-eq-get_or, store-set, drop, drop-get_or,
}
use lp_net.Timer.{TimerTask, no_task, earlier}
use lp_net.Timer.Heap.{swap}

unfoldable pub at : List TimerTask → ℕ → TimerTask
at xs i = get_or xs i no_task

-- The expiry of the task at an index.
unfoldable pub key : List TimerTask → ℕ → ℕ
key xs i = (at xs i).expired_time

pub earlier-key :
    (xs : List TimerTask) (i j : ℕ) → earlier (at xs i) (at xs j) ≡ ltb (key xs i) (key xs j)
unfolding key
earlier-key xs i j = refl

pub load-at : (xs : List TimerTask) (i : ℕ) → i < length xs → load xs i ≡ some (at xs i)
unfolding at
load-at xs i h = get_elem?-eq-get_or xs i no_task h

pub drop-at : (xs : List TimerTask) (i : ℕ) → i < length xs → drop i xs ≡ at xs i ∷ drop (suc i) xs
unfolding at
drop-at xs i h = drop-get_or i xs no_task h

abbrev pub parent : ℕ → ℕ
parent i = (i - 1) / 2

-- The first `n` tasks are in heap order: none expires before its parent.
abbrev pub IsHeap : List TimerTask → ℕ → Type 0
IsHeap xs n = (i : ℕ) → 0 < i → i < n → key xs (parent i) ≤ key xs i

pub swapped : List TimerTask → ℕ → ℕ → List TimerTask
swapped xs x y = set (set xs x (at xs y)) y (at xs x)

pub swap_lem :
    (xs : List TimerTask) (x y : ℕ)
    → x < length xs
    → y < length xs
    → swap xs x y ≡ some (swapped xs x y)
unfolding swap swapped at
swap_lem xs x y hx hy =
    rw
      (
        get_elem?-eq-get_or xs x no_task hx,
        get_elem?-eq-get_or xs y no_task hy,
        store-set xs x (at xs y) hx,
      )
      (store-set (set xs x (at xs y)) y (at xs x) (omega (arith, length-set xs x (at xs y))))

pub length-swapped : (xs : List TimerTask) (x y : ℕ) → length (swapped xs x y) ≡ length xs
unfolding swapped
length-swapped xs x y = length-set (set xs x (at xs y)) y (at xs x) ∙ length-set xs x (at xs y)

pub at-set :
    (xs : List TimerTask) (i j : ℕ) (v : TimerTask)
    → i < length xs
    → at (set xs i v) j ≡ (if j == i then v else at xs j)
unfolding at
at-set xs i j v h = elim (Bool-cases (j == i)) [
  | inl here ↦ rw (here, (==_iff j i).0 here) (get_or-set_self xs i v no_task h)
  | inr other ↦ rw other (get_or-set_ne xs i j v no_task (ground arith))
]

pub key-set :
    (xs : List TimerTask) (i j : ℕ) (v : TimerTask)
    → i < length xs
    → key (set xs i v) j ≡ (if j == i then v.expired_time else key xs j)
unfolding key
key-set xs i j v h = grind (arith, at-set xs i j v h)

pub at-swapped :
    (xs : List TimerTask) (x y i : ℕ)
    → x < length xs
    → y < length xs
    → at (swapped xs x y) i ≡ (if i == y then at xs x else if i == x then at xs y else at xs i)
unfolding swapped
at-swapped xs x y i hx hy =
    at-set (set xs x (at xs y)) y i (at xs x) (omega (arith, length-set xs x (at xs y)))
    ∙ ap (λ t. if i == y then at xs x else t) (at-set xs x i (at xs y) hx)

pub key-swapped :
    (xs : List TimerTask) (x y i : ℕ)
    → x < length xs
    → y < length xs
    → key (swapped xs x y) i ≡ (if i == y then key xs x else if i == x then key xs y else key xs i)
unfolding key
key-swapped xs x y i hx hy = grind (arith, at-swapped xs x y i hx hy)

set-perm :
    (xs : List TimerTask) (i : ℕ) (v : TimerTask)
    → i < length xs
    → Perm (at xs i ∷ set xs i v) (v ∷ xs)
unfolding at
set-perm [] i v h = absurd (omega arith)
set-perm (x ∷ xs) zero v h = Perm.swap v x xs
set-perm (x ∷ xs) (suc i) v h =
    Perm.trans (Perm.swap x (at xs i) (set xs i v))
      (Perm.trans (Perm.cons x (set-perm xs i v (omega arith))) (Perm.swap v x xs))

pub swapped-perm :
    (xs : List TimerTask) (x y : ℕ) → x < length xs → y < length xs → Perm (swapped xs x y) xs
unfolding swapped
swapped-perm xs x y hx hy = Perm.cons_inv (
    Perm.trans
      (subst (λ t. Perm (t ∷ swapped xs x y) (at xs x ∷ set xs x (at xs y))) kept
        (set-perm (set xs x (at xs y)) y (at xs x) (omega (arith, length-set xs x (at xs y)))))
      (set-perm xs x (at xs y) hx))
  where
    kept : at (set xs x (at xs y)) y ≡ at xs y
    kept = grind (arith, at-set xs x y (at xs y) hx)
