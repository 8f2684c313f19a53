-- ===== src/Timer/Heap/Rise.antt =====
-- `moveUp` and `add` keep the heap order.
use mathlib.Core.List.{Perm}
use mathlib.Core.List.Perm
use mathlib.Core.Path.{subst}
use lp_net.Prelude.{
  ℕ, zero, suc, ◌+◌, ◌/◌, ◌≤◌, ◌<◌, ◌≡◌, ◌≢◌, refl, ap, ◌∙◌, sym, ltb→lt, arith, List, Option, some,
  true, false, Bool-cases, inl, inr, ◌==◌, if◌then◌else◌, ◌>>=◌, set, length, length-set, store-set,
}
use lp_net.Timer.{TimerTask, earlier}
use lp_net.Timer.Heap.{TimerTaskHeap, move_up, add}
use lp_net.Timer.Heap.Order.{
  at, key, earlier-key, load-at, parent, IsHeap, swapped, swap_lem, length-swapped, key-set,
  key-swapped, swapped-perm,
}

-- Only the task at `cur` may expire before its parent.
pub record IsRising (xs : List TimerTask) (n cur : ℕ) : Type 0 where
  pub inside : cur < n
  pub fits : n ≤ length xs
  pub edges : (i : ℕ) → 0 < i → i < n → i ≢ cur → key xs (parent i) ≤ key xs i
  pub bridged : (i : ℕ) → 0 < i → i < n → 0 < cur → parent i ≡ cur → key xs (parent cur) ≤ key xs i

swapped-IsRising :
    (xs : List TimerTask) (n cur : ℕ)
    → IsRising xs n cur
    → 0 < cur
    → key xs cur < key xs (parent cur)
    → IsRising (swapped xs cur (parent cur)) n (parent cur)
swapped-IsRising xs n cur v pos below = record {
  inside = omega arith;
  fits = omega (arith, length-swapped xs cur (parent cur));
  edges = λ i p q r. grind (arith, k i, k (parent i), v.edges i, v.bridged i, v.edges);
  bridged =
      λ i p q r e. grind (arith, k i, k (parent (parent cur)), v.edges i, v.edges (parent cur));
}
  where
    k :
        (i : ℕ)
        → key (swapped xs cur (parent cur)) i ≡ (
            if i == parent cur
            then key xs cur
            else if i == cur
            then key xs (parent cur)
            else key xs i)
    k i = key-swapped xs cur (parent cur) i (omega arith) (omega arith)

-- What `moveUp` returns: a heap with the same tasks.
pub record Risen (xs ys : List TimerTask) (n : ℕ) : Type 0 where
  pub ordered : IsHeap ys n
  pub same : Perm ys xs
  pub size : length ys ≡ length xs

settled-IsHeap :
    (xs : List TimerTask) (n cur : ℕ)
    → IsRising xs n cur
    → (0 < cur → key xs (parent cur) ≤ key xs cur)
    → IsHeap xs n
settled-IsHeap xs n cur v h i p q = elim (Bool-cases (i == cur)) [
  | inl here ↦ grind (arith, h)
  | inr other ↦ grind (arith, v.edges i p q)
]

-- One round of `moveUp`.
move_up-round :
    (fuel c : ℕ) (xs : List TimerTask)
    → suc c < length xs
    → move_up (suc fuel) xs (suc c) ≡ (
        if earlier (at xs (suc c)) (at xs (c / 2))
        then move_up fuel (swapped xs (suc c) (c / 2)) (c / 2)
        else some xs)
unfolding move_up
move_up-round fuel c xs h =
    rw
      (
        load-at xs (suc c) h,
        load-at xs (c / 2) (omega arith),
        swap_lem xs (suc c) (c / 2) h (omega arith),
      )
      refl

move_up_lem :
    (fuel cur n : ℕ) (xs : List TimerTask)
    → cur < fuel
    → IsRising xs n cur
    → (ys : List TimerTask) × (move_up fuel xs cur ≡ some ys) × Risen xs ys n
unfolding move_up
move_up_lem zero cur n xs f v = absurd (omega arith)
move_up_lem (suc fuel) zero n xs f v = (
  xs,
  refl,
  record {
    ordered = settled-IsHeap xs n zero v (λ h. absurd (omega arith));
    same = Perm.rfl;
    size = refl;
  },
)
move_up_lem (suc fuel) (suc c) n xs f v =
    elim (Bool-cases (earlier (at xs (suc c)) (at xs (c / 2)))) [
      | inl below ↦
          let (ys, e, r) =
            move_up_lem fuel (c / 2) n (swapped xs (suc c) (c / 2)) (omega arith) (sunk below) in
          (
            ys,
            move_up-round fuel c xs (omega arith)
                ∙ ap (λ b. if b then risen else some xs) below
                ∙ e,
            record {
              ordered = r.ordered;
              same =
                  Perm.trans r.same (swapped-perm xs (suc c) (c / 2) (omega arith) (omega arith));
              size = r.size ∙ length-swapped xs (suc c) (c / 2);
            },
          )
      | inr settled ↦ (
        xs,
        move_up-round fuel c xs (omega arith) ∙ ap (λ b. if b then risen else some xs) settled,
        record {
          ordered = settled-IsHeap xs n (suc c) v (λ h. not_below settled);
          same = Perm.rfl;
          size = refl;
        },
      )
    ]
  where
    risen : Option (List TimerTask)
    risen = move_up fuel (swapped xs (suc c) (c / 2)) (c / 2)

    half : parent (suc c) ≡ c / 2
    half = omega arith

    sunk :
        earlier (at xs (suc c)) (at xs (c / 2)) ≡ true
        → IsRising (swapped xs (suc c) (c / 2)) n (c / 2)
    sunk h =
        subst (λ p. IsRising (swapped xs (suc c) p) n p) half
          (swapped-IsRising xs n (suc c) v (omega arith) (
            subst (λ p. key xs (suc c) < key xs p) (sym half)
              (ltb→lt (key xs (suc c)) (key xs (c / 2))
                (sym (earlier-key xs (suc c) (c / 2)) ∙ h))))

    not_below :
        earlier (at xs (suc c)) (at xs (c / 2)) ≡ false → key xs (parent (suc c)) ≤ key xs (suc c)
    not_below h =
        subst (λ p. key xs p ≤ key xs (suc c)) (sym half)
          (ground (arith, sym (earlier-key xs (suc c) (c / 2)) ∙ h))

-- A task that is added where there is room goes into the array with the others and keeps the heap order,
-- and `add` gives its id.
pub add_lem :
    (h : TimerTaskHeap) (task : TimerTask)
    → IsHeap h.tasks h.size
    → h.size < length h.tasks
    → (h' : TimerTaskHeap) × (add h task ≡ some (task.id, h'))
      × IsHeap h'.tasks h'.size
      × (h'.size ≡ h.size + 1)
      × Perm h'.tasks (set h.tasks h.size task)
unfolding add
add_lem h task order room =
    let (ys, e, r) =
      move_up_lem (suc h.size) h.size (h.size + 1) (set h.tasks h.size task) (omega arith) placed in
    (
      record h { tasks = ys; size = h.size + 1 },
      ap
            (λ o. o >>= λ xs. move_up (suc h.size) xs h.size >>= λ xs'.
              some (task.id, record h { tasks = xs'; size = h.size + 1 }))
            (store-set h.tasks h.size task room)
          ∙ ap (λ o. o >>= λ xs'. some (task.id, record h { tasks = xs'; size = h.size + 1 })) e,
      r.ordered,
      refl,
      r.same,
    )
  where
    k : (i : ℕ) → i < h.size → key (set h.tasks h.size task) i ≡ key h.tasks i
    k i below = grind (arith, key-set h.tasks h.size i task room)

    placed : IsRising (set h.tasks h.size task) (h.size + 1) h.size
    placed = record {
      inside = omega arith;
      fits = omega (arith, length-set h.tasks h.size task);
      edges = λ i p q r. grind (arith, k i, k (parent i), order i);
      bridged = λ i p q r e. absurd (omega arith);
    }
