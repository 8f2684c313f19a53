-- ===== src/Timer/Heap/Removal.antt =====
-- `remove` and `modify` end, and keep the tasks of the array.
use mathlib.Core.List.{Perm}
use mathlib.Core.List.Perm
use mathlib.Core.Path.{subst}
use lp_net.Prelude.{
  ℕ, zero, suc, ◌+◌, ◌*◌, ◌≤◌, ◌<◌, ◌≡◌, refl, sym, ap, ◌∙◌, arith, List, [], ◌∷◌, Option, none,
  some, Bool, true, false, Bool-cases, inl, inr, ltb, ◌==◌, if◌then◌else◌, ◌>>=◌, length, sub_size,
  take, drop, ◌^◌,
}
use lp_net.Timer.{TimerTask, later}
use lp_net.Timer.Heap.{
  TimerTaskHeap, swap, pick_child, sift, index_from, index_of, remove_at, remove,
}
use lp_net.Timer.Heap.Order.{at, load-at, drop-at, swapped, swap_lem, length-swapped, swapped-perm}

pick_child_lem :
    (xs : List TimerTask) (size child : ℕ)
    → child < size
    → size ≤ length xs
    → (c : ℕ) × (pick_child xs size child ≡ some c) × (child ≤ c) × (c < size)
unfolding pick_child
pick_child_lem xs size child inside fits = elim (Bool-cases (ltb (child + 1) size)) [
  | inr only ↦ (child, rw only refl, omega arith, inside)
  | inl both ↦ elim (Bool-cases (later (at xs child) (at xs (child + 1)))) [
    | inl second ↦ (
      child + 1,
      rw (both, load-at xs child (omega arith), load-at xs (child + 1) (ground arith), second) refl,
      omega arith,
      ground arith,
    )
    | inr first ↦ (
      child,
      rw (both, load-at xs child (omega arith), load-at xs (child + 1) (ground arith), first) refl,
      omega arith,
      inside,
    )
  ]
]

-- A loop over the array that ends with the same tasks.
pub record Shuffled (xs ys : List TimerTask) : Type 0 where
  pub same : Perm ys xs
  pub size : length ys ≡ length xs

pub sift_lem :
    (fuel size pa : ℕ) (xs : List TimerTask)
    → pa < size
    → size ≤ length xs
    → size ≤ fuel + pa
    → (ys : List TimerTask) × (sift fuel xs size pa ≡ some ys) × Shuffled xs ys
unfolding sift
sift_lem zero size pa xs inside fits enough = absurd (omega arith)
sift_lem (suc fuel) size pa xs inside fits enough = elim (Bool-cases (ltb (pa * 2 + 1) size)) [
  | inr leaf ↦ (xs, rw leaf refl, record { same = Perm.rfl; size = refl })
  | inl inner ↦
      let (c, e, up, below) = pick_child_lem xs size (pa * 2 + 1) (ground arith) fits in
      let (ys, f, s) =
        sift_lem fuel size c (swapped xs c pa) below (omega (arith, length-swapped xs c pa))
          (omega arith) in
      (
        ys,
        ap (λ b. if b then next else some xs) inner
            ∙ ap (λ o. o >>= λ child. swap xs child pa >>= λ xs'. sift fuel xs' size child) e
            ∙ ap (λ o. o >>= λ xs'. sift fuel xs' size c)
                (swap_lem xs c pa (omega arith) (omega arith))
            ∙ f,
        record {
          same = Perm.trans s.same (swapped-perm xs c pa (omega arith) (omega arith));
          size = s.size ∙ length-swapped xs c pa;
        },
      )
]
  where
    next : Option (List TimerTask)
    next = pick_child xs size (pa * 2 + 1) >>= λ child.
        swap xs child pa >>= λ xs'. sift fuel xs' size child

-- Whether a task of the list has the id.
abbrev pub has : ℕ → List TimerTask → Bool
has id [] = false
has id (t ∷ ts) = if t.id == id then true else has id ts

-- The index that is found is below the bound.
Under : ℕ → Option ℕ → Type 0
Under n none = Unit
Under n (some i) = i < n

-- The answer of a search.
record Searched (o : Option ℕ) (found : Bool) (n : ℕ) : Type 0 where
  answer : elim o [ none ↦ false | some i ↦ true ] ≡ found
  under : Under n o

index_from_lem :
    (id pa rounds : ℕ) (xs : List TimerTask)
    → pa + rounds ≤ length xs
    → (o : Option ℕ) × (index_from xs id pa rounds ≡ some o)
      × Searched o (has id (take rounds (drop pa xs))) (pa + rounds)
unfolding index_from Under
index_from_lem id pa zero xs h = (none, refl, record { answer = refl; under = tt })
index_from_lem id pa (suc rounds) xs h = elim (Bool-cases ((at xs pa).id == id)) [
  | inl here ↦ (
    some pa,
    rw (load-at xs pa (omega arith), here) refl,
    record { answer = sym (split ∙ ap (λ b. if b then true else rest) here); under = omega arith },
  )
  | inr other ↦
      let (o, e, s) = index_from_lem id (suc pa) rounds xs (omega arith) in
      (
        o,
        rw (load-at xs pa (omega arith), other) e,
        record {
          answer = s.answer ∙ sym (split ∙ ap (λ b. if b then true else rest) other);
          under = subst (λ n. Under n o) (omega arith) s.under;
        },
      )
]
  where
    rest : Bool
    rest = has id (take rounds (drop (suc pa) xs))

    split : has id (take (suc rounds) (drop pa xs)) ≡ (if (at xs pa).id == id then true else rest)
    split = ap (λ ts. has id (take (suc rounds) ts)) (drop-at xs pa (omega arith))

remove_at_lem :
    (h : TimerTaskHeap) (o : Option ℕ) (found : Bool)
    → h.size ≤ length h.tasks
    → h.size < 2 ^ 64
    → Searched o found h.size
    → (h' : TimerTaskHeap) × (remove_at h o ≡ some (found, h'))
      × (h'.size + (if found then 1 else 0) ≡ h.size)
      × Perm h'.tasks h.tasks
unfolding remove_at Under
remove_at_lem h none found fits small s = (
  h,
  ap (λ b. some (b, h)) s.answer,
  ap (λ b. h.size + (if b then 1 else 0)) (sym s.answer) ∙ omega arith,
  Perm.rfl,
)
remove_at_lem h (some i) found fits small s =
    let (ys, e, k) = sift_lem (suc h.size) h.size i h.tasks s.under fits (omega arith) in
    (
      record h { tasks = ys; size = sub_size h.size 1 },
      ap (λ o. o >>= λ xs. some (true, record h { tasks = xs; size = sub_size h.size 1 })) e
          ∙ ap (λ b. some (b, record h { tasks = ys; size = sub_size h.size 1 })) s.answer,
      ap (λ b. sub_size h.size 1 + (if b then 1 else 0)) (sym s.answer)
          ∙ shrink h.size (omega (arith, s.under)) small,
      k.same,
    )
  where
    shrink : (n : ℕ) → 0 < n → n < 2 ^ 64 → sub_size n 1 + 1 ≡ n
    shrink n p q = omega arith

-- `remove` ends on every heap that fits its array, answers whether a task of the heap has the id, and
-- makes the heap one task smaller if so; the array keeps all its tasks.
pub remove_lem :
    (h : TimerTaskHeap) (id : ℕ)
    → h.size ≤ length h.tasks
    → h.size < 2 ^ 64
    → (h' : TimerTaskHeap) × (remove h id ≡ some (has id (take h.size h.tasks), h'))
      × (h'.size + (if has id (take h.size h.tasks) then 1 else 0) ≡ h.size)
      × Perm h'.tasks h.tasks
unfolding remove index_of
remove_lem h id fits small =
    let (o, e, s) = index_from_lem id 0 h.size h.tasks (omega arith) in
    let (h', f, size, same) =
      remove_at_lem h o (has id (take h.size h.tasks)) fits small
        (subst (λ n. Searched o (has id (take h.size h.tasks)) n) (omega arith) s) in
    (h', ap (λ found. found >>= remove_at h) e ∙ f, size, same)
