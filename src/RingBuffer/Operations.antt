-- ===== src/RingBuffer/Operations.antt =====
-- `push` and `pop` of a valid `RingBuffer`.
use native.Mathlib.Nat.{mod-eq_of_lt, mod-lt, mod-add-mod, add-zero, add-mod_right, mod-mod}
use lp_net.Prelude.{
  ℕ, zero, suc, ◌+◌, ◌%◌, ◌<◌, ◌≡◌, ◌≢◌, ◌⊎◌, inl, inr, refl, sym, ap, ap₂, ◌∙◌, arith, [], ◌∷◌,
  ◌++◌, none, some, Bool, true, false, leb, ◌==◌, set, add_size, ℕ_discrete, length-set, store-set,
  get_elem?-eq-get_or, get_or, ltb, ltb→lt, Bool-cases, if◌then◌else◌,
}
use lp_net.Buffer.Window.{window, window-congr, window-push}
use lp_net.RingBuffer.{RingBuffer, empty_internal, locking, size, put, push_copy, push_move, pop}
use lp_net.RingBuffer.Contents.{
  IsValid, held_count, contents, modulo_pos, size_internal_lem, count-lt, put_pos-count,
  count_of_positions,
}

not-full : (n m : ℕ) → n < m → leb m n ≡ false
not-full n m h = ground arith

ne-== : (n m : ℕ) → n ≢ m → (n == m) ≡ false
ne-== n m h = ground arith

same-== : (n m : ℕ) → n ≡ m → (n == m) ≡ true
same-== n m h = ground arith

abbrev pushed : RingBuffer → ℕ → RingBuffer
pushed r x = record r { cells = set r.cells r.put_pos x; put_pos = (r.put_pos + 1) % r.capacity }

abbrev popped : RingBuffer → RingBuffer
popped r = record r { get_pos = (r.get_pos + 1) % r.capacity }

module _ {r : RingBuffer} (v : IsValid r) where
  pushed-IsValid : (x : ℕ) → IsValid (pushed r x)
  pushed-IsValid x = record {
    allocated = length-set r.cells r.put_pos x ∙ v.allocated;
    put_in = mod-lt (r.put_pos + 1) (omega (arith, v.put_in));
    get_in = v.get_in;
    small = v.small;
  }

  put_lem : (x : ℕ) → put r x ≡ some (pushed r x)
  unfolding put
  put_lem x =
      rw
        (
          store-set r.cells r.put_pos x (omega (arith, v.allocated)),
          modulo_pos (add_size r.put_pos 1) r.capacity (omega (arith, v.put_in)),
        )
        (ap (λ p. some (record r { cells = set r.cells r.put_pos x; put_pos = p }))
          (ap (λ t. t % r.capacity) (omega arith)))

  at_pushed :
      (n : ℕ) → (x : ℕ) → n ≡ held_count r → (pushed r x).put_pos ≡ (r.get_pos + suc n) % r.capacity
  at_pushed n x e =
      ap (λ t. (t + 1) % r.capacity) (sym (put_pos-count v))
      ∙ mod-add-mod (r.get_pos + held_count r) r.capacity 1
      ∙ ap (λ t. t % r.capacity) {y = r.get_pos + suc n} (omega (arith, e))

  contents-pushed_room :
      (x : ℕ) → suc (held_count r) < r.capacity → contents (pushed r x) ≡ contents r ++ x ∷ []
  contents-pushed_room x room =
      ap (window (set r.cells r.put_pos x) r.capacity r.get_pos) (
        count_of_positions (pushed-IsValid x) (suc (held_count r)) room
          (at_pushed (held_count r) x refl))
      ∙ ap (λ p. window (set r.cells p x) r.capacity r.get_pos (suc (held_count r)))
          (sym (put_pos-count v))
      ∙ window-push r.cells r.capacity r.get_pos (held_count r) x (count-lt v)
          (omega (arith, v.allocated))

  contents-pushed_full : (x : ℕ) → suc (held_count r) ≡ r.capacity → contents (pushed r x) ≡ []
  contents-pushed_full x full = ap (window (set r.cells r.put_pos x) r.capacity r.get_pos) (
      count_of_positions (pushed-IsValid x) 0 (omega (arith, v.put_in)) (
        at_pushed (held_count r) x refl
        ∙ ap (λ t. (r.get_pos + t) % r.capacity) full
        ∙ add-mod_right r.get_pos r.capacity
        ∙ ap (λ t. t % r.capacity) (sym (add-zero r.get_pos))))

  contents-pushed :
      (x : ℕ)
      → contents (pushed r x)
        ≡ (if ltb (suc (held_count r)) r.capacity then contents r ++ x ∷ [] else [])
  contents-pushed x = elim (Bool-cases (ltb (suc (held_count r)) r.capacity)) [
    | inl room ↦ contents-pushed_room x (ltb→lt (suc (held_count r)) r.capacity room) ∙ rw room refl
    | inr tight ↦ contents-pushed_full x (last_cell tight) ∙ rw tight refl
  ]
    where
      last_cell : ltb (suc (held_count r)) r.capacity ≡ false → suc (held_count r) ≡ r.capacity
      last_cell tight = ground (arith, count-lt v)

  -- In a valid ring whose mutex is free, `push` of a `const` reference is never refused and returns nothing; it appends the element, but
  -- where one cell is left free it makes the buffer look empty, so that all elements are lost.
  pub push_copy_lem :
      (x : ℕ)
      → (r' : RingBuffer) × (push_copy false r x ≡ some (none, r'))
        × IsValid r'
        × (contents r' ≡ (if ltb (suc (held_count r)) r.capacity then contents r ++ x ∷ [] else []))
  unfolding push_copy locking
  push_copy_lem x = (
    pushed r x,
    rw (size_internal_lem v, not-full (held_count r) r.capacity (count-lt v), put_lem x) refl,
    pushed-IsValid x,
    contents-pushed x,
  )

  popped-IsValid : IsValid (popped r)
  popped-IsValid = record {
    allocated = v.allocated;
    put_in = v.put_in;
    get_in = mod-lt (r.get_pos + 1) (omega (arith, v.put_in));
    small = v.small;
  }

  contents-popped :
      (n : ℕ) → held_count r ≡ suc n → contents r ≡ get_or r.cells r.get_pos 0 ∷ contents (popped r)
  contents-popped n e =
      ap (window r.cells r.capacity r.get_pos) e
      ∙ ap₂ ◌∷◌ (ap (λ p. get_or r.cells p 0) (mod-eq_of_lt v.get_in)) (
          window-congr r.cells r.capacity (suc r.get_pos) ((r.get_pos + 1) % r.capacity) n (
            ap (λ t. t % r.capacity) {y = r.get_pos + 1} (omega arith)
            ∙ sym (mod-mod (r.get_pos + 1) r.capacity))
          ∙ ap (window r.cells r.capacity ((r.get_pos + 1) % r.capacity)) (sym left))
    where
      left : held_count (popped r) ≡ n
      left = count_of_positions popped-IsValid n (omega (arith, count-lt v, e)) (
          sym (put_pos-count v)
          ∙ ap (λ t. t % r.capacity) {y = r.get_pos + 1 + n} (omega (arith, e))
          ∙ sym (mod-add-mod (r.get_pos + 1) r.capacity n))

  pop-some :
      r.put_pos ≢ r.get_pos → pop r ≡ some (true, some (get_or r.cells r.get_pos 0), popped r)
  unfolding pop empty_internal
  pop-some h =
      rw
        (
          ne-== r.put_pos r.get_pos h,
          get_elem?-eq-get_or r.cells r.get_pos 0 (omega (arith, v.allocated, v.get_in)),
          modulo_pos (add_size r.get_pos 1) r.capacity (omega (arith, v.put_in)),
        )
        (ap (λ p. some (true, some (get_or r.cells r.get_pos 0), record r { get_pos = p }))
          (ap (λ t. t % r.capacity) (omega arith)))

  count-zero : r.put_pos ≡ r.get_pos → held_count r ≡ 0
  count-zero e =
      count_of_positions v 0 (omega (arith, v.put_in))
        (e ∙ sym (mod-eq_of_lt v.get_in) ∙ ap (λ t. t % r.capacity) (sym (add-zero r.get_pos)))

  count-suc : r.put_pos ≢ r.get_pos → (n : ℕ) × (held_count r ≡ suc n)
  count-suc h = positive (held_count r) refl
    where
      positive : (k : ℕ) → held_count r ≡ k → (n : ℕ) × (held_count r ≡ suc n)
      positive zero e = absurd (
          h (
            sym (put_pos-count v)
            ∙ ap (λ t. (r.get_pos + t) % r.capacity) e
            ∙ ap (λ t. t % r.capacity) (add-zero r.get_pos)
            ∙ mod-eq_of_lt v.get_in))
      positive (suc n) e = (n, e)

  -- In a valid ring, `pop` says whether there is an element, gives the oldest one, and leaves the others in order.
  pub pop_lem :
      ((contents r ≡ []) × (pop r ≡ some (false, none, r)))
      ⊎ ((x : ℕ) × (r' : RingBuffer) × (contents r ≡ x ∷ contents r')
          × (pop r ≡ some (true, some x, r'))
          × IsValid r')
  unfolding pop empty_internal
  pop_lem = elim (ℕ_discrete r.put_pos r.get_pos) [
    | yes e ↦ inl (
      ap (window r.cells r.capacity r.get_pos) (count-zero e),
      rw (same-== r.put_pos r.get_pos e) refl,
    )
    | no h ↦
        let (n, e) = count-suc h in
        inr (get_or r.cells r.get_pos 0, popped r, contents-popped n e, pop-some h, popped-IsValid)
  ]

-- `push` of an rvalue never returns: it locks the mutex that it holds.
pub push_move_deadlock : (held : Bool) (r : RingBuffer) (x : ℕ) → push_move held r x ≡ none
unfolding push_move size locking
push_move_deadlock true r x = refl
push_move_deadlock false r x = refl
