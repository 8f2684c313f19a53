-- ===== src/SafeQueue/Order.antt =====
-- A `SafeQueue` hands out what it took in, in order, and never holds more than its capacity.
use lp_net.Prelude.{
  ℕ, zero, suc, ◌-◌, ◌≤◌, ◌<◌, ◌≡◌, refl, sym, ap, ap₂, ◌∙◌, arith, List, [], ◌∷◌, ◌++◌, append-nil,
  append_assoc, none, some, true, false, ◌==◌, if◌then◌else◌, length, length-append, take, take-nil,
  take-cons_pos, take_of_length-le, drop, drop_of_length-le, min, dec_lt,
}
use lp_net.SafeQueue.{SafeQueue, size, full, push, pop}

not-full : (a b : ℕ) → a < b → (a == b) ≡ false
not-full a b h = ground arith

module _ {ℓ} {A : Type ℓ} where
  -- Pushes in order; how many were taken.
  pub push_all : SafeQueue A → List A → ℕ × SafeQueue A
  push_all s [] = (0, s)
  push_all s (x ∷ xs) =
      let (taken, s') = push s x in
      let (n, s'') = push_all s' xs in ((if taken then suc n else n), s'')

  -- Pops until one fails, at most so often; what they handed out.
  pub pop_all : SafeQueue A → ℕ → List A × SafeQueue A
  pop_all s zero = ([], s)
  pop_all s (suc n) =
      let (taken, out, s') = pop s in
      let rest = pop_all s' n in elim out [ none ↦ ([], s') | some x ↦ (x ∷ rest.0, rest.1) ]

  push_room :
      (s : SafeQueue A) (x : A)
      → length s.q < s.capacity
      → push s x ≡ (true, record s { q = s.q ++ x ∷ [] })
  unfolding push full size
  push_room s x h = rw (not-full (length s.q) s.capacity h) refl

  push_full : (s : SafeQueue A) (x : A) → length s.q ≡ s.capacity → push s x ≡ (false, s)
  unfolding push full size
  push_full s x e = rw e (ground arith)

  -- Within the capacity, pushes take the elements that fit and refuse the others.
  pub push_all_lem :
      (xs : List A) (s : SafeQueue A)
      → length s.q ≤ s.capacity
      → push_all s xs ≡ (
        min (length xs) (s.capacity - length s.q),
        record s { q = s.q ++ take (s.capacity - length s.q) xs },
      )
  unfolding push_all
  push_all_lem [] s h =
      ap₂ (λ n l. (n, record s { q = l })) (omega arith)
        (sym (append-nil s.q) ∙ ap (◌++◌ s.q) (sym (take-nil (s.capacity - length s.q))))
  push_all_lem (x ∷ xs) s h = elim (dec_lt (length s.q) s.capacity) [
    | yes room ↦
        rw
          (
            push_room s x room,
            push_all_lem xs (record s { q = s.q ++ x ∷ [] })
                (omega (arith, length-append s.q (x ∷ []))),
          )
          (ap₂ (λ n l. (n, record s { q = l })) (omega (arith, length-append s.q (x ∷ [])))
            (append_assoc s.q (x ∷ []) _
              ∙ ap (λ t. s.q ++ x ∷ t)
                  (ap (λ k. take k xs) {y = s.capacity - length s.q - 1}
                    (omega (arith, length-append s.q (x ∷ []))))
              ∙ ap (◌++◌ s.q) (sym (take-cons_pos (s.capacity - length s.q) x xs (omega arith)))))
    | no full ↦
        rw (push_full s x (omega arith), push_all_lem xs s h)
          (ap₂ (λ n l. (n, record s { q = l })) (omega arith)
            (ap (λ k. s.q ++ take k xs) {y = 0} (omega arith)
              ∙ ap (λ k. s.q ++ take k (x ∷ xs)) {x = 0} (omega arith)))
  ]

  pops :
      (n capacity : ℕ) (q : List A)
      → n ≤ length q
      → pop_all (record { capacity = capacity; q = q }) n
        ≡ (take n q, record { capacity = capacity; q = drop n q })
  unfolding pop_all pop
  pops zero capacity q h = refl
  pops (suc n) capacity [] h = absurd (omega arith)
  pops (suc n) capacity (x ∷ q) h = rw (pops n capacity q (omega arith)) refl

  -- Pops hand out the elements in the order in which they stand, and leave the others.
  pub pop_all_lem :
      (n : ℕ) (s : SafeQueue A)
      → n ≤ length s.q
      → pop_all s n ≡ (take n s.q, record s { q = drop n s.q })
  pop_all_lem n s h = pops n s.capacity s.q h

  -- What fits into an empty queue comes out again, in the same order, and leaves it empty.
  pub push_all-pop_all :
      (xs : List A) (s : SafeQueue A)
      → s.q ≡ []
      → length xs ≤ s.capacity
      → let (n, s') = push_all s xs in (n ≡ length xs) × (pop_all s' n ≡ (xs, s))
  push_all-pop_all xs s e h = rw filled (
    refl,
    pop_all_lem (length xs) (record s { q = xs }) (omega arith)
        ∙ ap₂ (λ out l. (out, record s { q = l })) (take_of_length-le (length xs) xs (omega arith))
            (drop_of_length-le (length xs) xs (omega arith) ∙ sym e),
  )
    where
      filled : push_all s xs ≡ (length xs, record s { q = xs })
      filled =
          push_all_lem xs s (omega (arith, ap length e))
          ∙ ap₂ (λ n l. (n, record s { q = l })) (omega (arith, ap length e))
              (ap (λ l. l ++ take (s.capacity - length s.q) xs) e
                ∙ take_of_length-le (s.capacity - length s.q) xs (omega (arith, ap length e)))
