-- ===== src/Timer/Table/Order.antt =====
-- Tasks with different ids and different expiries, none of them cyclic, in the ordered map.
use mathlib.Core.List.{Perm, perm_middle}
use mathlib.Core.List.Perm
use mathlib.Core.Path.{subst}
use lp_net.Prelude.{
  ℕ, zero, suc, ◌+◌, ◌≤◌, ◌≡◌, refl, ap, ap₂, append-nil, ◌++◌, ◌∙◌, arith, List, [], ◌∷◌, Option,
  none, some, true, false, Bool-cases, inl, inr, ltb, ◌==◌, if◌then◌else◌, length, map,
}
use lp_net.Timer.{TimerTask}
use lp_net.Timer.Table.{
  IdTimestampPair, TimerTaskMap, init, hash, before, assign, add, pop_first, pop,
}

-- The task has another id and another expiry than each of the list.
abbrev pub Apart : TimerTask → List TimerTask → Type 0
Apart t [] = Unit
Apart t (u ∷ us) =
    ((t.id == u.id) ≡ false) × ((t.expired_time == u.expired_time) ≡ false) × Apart t us

-- The tasks have different ids and different expiries.
abbrev pub AllApart : List TimerTask → Type 0
AllApart [] = Unit
AllApart (t ∷ ts) = Apart t ts × AllApart ts

-- No task is cyclic.
abbrev pub AllOnce : List TimerTask → Type 0
AllOnce [] = Unit
AllOnce (t ∷ ts) = (t.cycled ≡ false) × AllOnce ts

abbrev pub insert : TimerTask → List TimerTask → List TimerTask
insert t [] = t ∷ []
insert t (u ∷ us) = if ltb u.expired_time t.expired_time then u ∷ insert t us else t ∷ u ∷ us

abbrev pub entry : TimerTask → IdTimestampPair × TimerTask
entry t = (hash t, t)

assign-insert :
    (t : TimerTask) (us : List TimerTask)
    → Apart t us
    → assign (hash t) t (map entry us) ≡ map entry (insert t us)
unfolding assign
assign-insert t [] h = refl
assign-insert t (u ∷ us) h = elim (Bool-cases (ltb u.expired_time t.expired_time)) [
  | inl older ↦ rw (older, goes older) (ap (λ es. entry u ∷ es) (assign-insert t us h.2))
  | inr newer ↦ rw (newer, stays newer, goes_back newer) refl
]
  where
    goes : (ltb u.expired_time t.expired_time ≡ true) → before (hash u) (hash t) ≡ true
    goes e = ground (arith, h.0, h.1)

    stays : (ltb u.expired_time t.expired_time ≡ false) → before (hash u) (hash t) ≡ false
    stays e = ground (arith, h.0, h.1)

    goes_back : (ltb u.expired_time t.expired_time ≡ false) → before (hash t) (hash u) ≡ true
    goes_back e = ground (arith, h.0, h.1)

insert-Apart :
    (v t : TimerTask) (us : List TimerTask) → Apart v (t ∷ []) → Apart v us → Apart v (insert t us)
insert-Apart v t [] h k = h
insert-Apart v t (u ∷ us) h k = elim (Bool-cases (ltb u.expired_time t.expired_time)) [
  | inl older ↦ rw older (k.0, k.1, insert-Apart v t us h k.2)
  | inr newer ↦ rw newer (h.0, h.1, k)
]

-- The first expiry is at least `x`.
abbrev pub Below : ℕ → List TimerTask → Type 0
Below x [] = Unit
Below x (t ∷ ts) = x ≤ t.expired_time

-- Each expiry is at most the next.
abbrev pub IsSorted : List TimerTask → Type 0
IsSorted [] = Unit
IsSorted (t ∷ ts) = Below t.expired_time ts × IsSorted ts

insert-Below :
    (x : ℕ) (t : TimerTask) (us : List TimerTask)
    → x ≤ t.expired_time
    → Below x us
    → Below x (insert t us)
insert-Below x t [] h k = h
insert-Below x t (u ∷ us) h k = elim (Bool-cases (ltb u.expired_time t.expired_time)) [
  | inl older ↦ rw older k
  | inr newer ↦ rw newer h
]

insert-IsSorted : (t : TimerTask) (us : List TimerTask) → IsSorted us → IsSorted (insert t us)
insert-IsSorted t [] h = (tt, tt)
insert-IsSorted t (u ∷ us) h = elim (Bool-cases (ltb u.expired_time t.expired_time)) [
  | inl older ↦
      rw older
        (insert-Below u.expired_time t us (ground (arith, older)) h.0, insert-IsSorted t us h.1)
  | inr newer ↦ rw newer (ground (arith, newer), h)
]

length-insert : (t : TimerTask) (us : List TimerTask) → length (insert t us) ≡ suc (length us)
length-insert t [] = refl
length-insert t (u ∷ us) = elim (Bool-cases (ltb u.expired_time t.expired_time)) [
  | inl older ↦ rw older (ap suc (length-insert t us))
  | inr newer ↦ rw newer refl
]

insert-perm : (t : TimerTask) (us : List TimerTask) → Perm (insert t us) (t ∷ us)
insert-perm t [] = Perm.rfl
insert-perm t (u ∷ us) = elim (Bool-cases (ltb u.expired_time t.expired_time)) [
  | inl older ↦ rw older (Perm.trans (Perm.cons u (insert-perm t us)) (Perm.swap t u us))
  | inr newer ↦ rw newer Perm.rfl
]

insert-AllOnce :
    (t : TimerTask) (us : List TimerTask) → t.cycled ≡ false → AllOnce us → AllOnce (insert t us)
insert-AllOnce t [] h k = (h, tt)
insert-AllOnce t (u ∷ us) h k = elim (Bool-cases (ltb u.expired_time t.expired_time)) [
  | inl older ↦ rw older (k.0, insert-AllOnce t us h k.1)
  | inr newer ↦ rw newer (h, k)
]

-- `add` of one task after the other.
pub add_all : TimerTaskMap → List TimerTask → TimerTaskMap
add_all m [] = m
add_all m (t ∷ ts) = add_all (add m t).1 ts

-- One call of `pop`, and the later ones if it gave a task.
pub gather :
    (TimerTaskMap → List TimerTask × TimerTaskMap)
    → Option TimerTask × TimerTaskMap
    → List TimerTask × TimerTaskMap
gather later (none, m) = ([], m)
gather later (some t, m) = let (ts, m') = later m in (t ∷ ts, m')

-- `pop` until the map is empty, at most `rounds` times.
pub pop_all : ℕ → ℕ → TimerTaskMap → List TimerTask × TimerTaskMap
pop_all zero now m = ([], m)
pop_all (suc rounds) now m = gather (pop_all rounds now) (pop now m)

-- The map that holds the tasks of a list.
abbrev pub table_of : ℕ → List TimerTask → TimerTaskMap
table_of capacity ts = record { tasks = map entry ts; capacity = capacity }

-- Each task of the first list is apart from the second.
abbrev pub AllFrom : List TimerTask → List TimerTask → Type 0
AllFrom [] us = Unit
AllFrom (t ∷ ts) us = Apart t us × AllFrom ts us

insert-AllFrom :
    (t : TimerTask) (ts us : List TimerTask) → Apart t ts → AllFrom ts us → AllFrom ts (insert t us)
insert-AllFrom t [] us h k = tt
insert-AllFrom t (v ∷ ts) us h k = (
  insert-Apart v t us (flip t.id v.id h.0, flip t.expired_time v.expired_time h.1, tt) k.0,
  insert-AllFrom t ts us h.2 k.1,
)
  where
    flip : (a b : ℕ) → ((a == b) ≡ false) → (b == a) ≡ false
    flip a b e = ground arith

-- What is known of the tasks that a list has left in the map.
pub record Sorting (us ts vs : List TimerTask) : Type 0 where
  pub sorted : IsSorted vs
  pub same : Perm vs (ts ++ us)
  pub once : AllOnce vs
  pub size : length vs ≡ length ts + length us

add_all-Sorting :
    (capacity : ℕ) (ts us : List TimerTask)
    → AllApart ts
    → AllFrom ts us
    → AllOnce ts
    → AllOnce us
    → IsSorted us
    → (vs : List TimerTask) × (add_all (table_of capacity us) ts ≡ table_of capacity vs)
      × Sorting us ts vs
unfolding add_all add
add_all-Sorting capacity [] us h f o p s =
    (us, refl, record { sorted = s; same = Perm.rfl; once = p; size = omega arith })
add_all-Sorting capacity (t ∷ ts) us h f o p s =
    let (vs, e, k) =
      add_all-Sorting capacity ts (insert t us) h.1 (insert-AllFrom t ts us h.0 f.1) o.1
        (insert-AllOnce t us o.0 p) (insert-IsSorted t us s) in
    (
      vs,
      ap (λ es. add_all (record { tasks = es; capacity = capacity }) ts) (assign-insert t us f.0)
          ∙ e,
      record {
        sorted = k.sorted;
        same =
            Perm.trans k.same
              (Perm.trans (Perm.append_left ts (insert-perm t us)) (perm_middle ts us));
        once = k.once;
        size = omega (arith, k.size, length-insert t us);
      },
    )

pop_all_lem :
    (capacity now : ℕ) (vs : List TimerTask)
    → AllOnce vs
    → pop_all (length vs) now (table_of capacity vs) ≡ (vs, table_of capacity [])
unfolding pop_all pop gather pop_first
pop_all_lem capacity now [] h = refl
pop_all_lem capacity now (v ∷ vs) h =
    ap
      (λ cycled.
        gather (pop_all (length vs) now)
          (pop_first now (table_of capacity (v ∷ vs)) v (map entry vs) cycled))
      h.0
    ∙ ap (λ out. (v ∷ out.0, out.1)) (pop_all_lem capacity now vs h.1)

-- One-shot tasks with different ids and different expiries that are added to an empty map come out of it
-- in the order of their expiries: each of them once, whatever the order in which they were added.
pub add_all-pop_all :
    (capacity now : ℕ) (ts : List TimerTask)
    → AllApart ts
    → AllOnce ts
    → (vs : List TimerTask) × (pop_all (length ts) now (add_all (init capacity) ts)
        ≡ (vs, init capacity))
      × IsSorted vs
      × Perm vs ts
unfolding init
add_all-pop_all capacity now ts h o =
    let (vs, e, k) = add_all-Sorting capacity ts [] h (from_nil ts) o tt tt in
    let size : length ts ≡ length vs = omega (arith, k.size) in
    (
      vs,
      ap₂ (λ n m. pop_all n now m) size e ∙ pop_all_lem capacity now vs k.once,
      k.sorted,
      subst (λ us. Perm vs us) (append-nil ts) k.same,
    )
  where
    from_nil : (us : List TimerTask) → AllFrom us []
    from_nil [] = tt
    from_nil (u ∷ us) = (tt, from_nil us)
