-- ===== src/RingBuffer/Contents.antt =====
-- What a `RingBuffer` holds. Its ring has as many cells as its capacity, so that a full ring and an
-- empty one have the same positions.
use native.Mathlib.Nat.{mod-eq_of_lt, mod-eq-sub-mod, mod-lt}
use lp_net.Prelude.{
  ℕ, zero, suc, ◌+◌, ◌-◌, ◌%◌, ◌^◌, ◌<◌, ◌≤◌, ◌≡◌, refl, ap, ◌∙◌, arith, List, some, false, ◌==◌,
  length, add_size, sub_size, dec_le,
}
use lp_net.Buffer.Window.{window}
use lp_net.RingBuffer.{RingBuffer, modulo, size_internal, full_internal, locking, full}

pub record IsValid (r : RingBuffer) : Type 0 where
  pub allocated : length r.cells ≡ r.capacity
  pub put_in : r.put_pos < r.capacity
  pub get_in : r.get_pos < r.capacity
  pub small : r.capacity < 2 ^ 62

-- The number of elements that the positions tell.
abbrev pub held_count : RingBuffer → ℕ
held_count r = (r.capacity + r.put_pos - r.get_pos) % r.capacity

abbrev pub contents : RingBuffer → List ℕ
contents r = window r.cells r.capacity r.get_pos (held_count r)

pub modulo_pos : (a m : ℕ) → 0 < m → modulo a m ≡ some (a % m)
unfolding modulo
modulo_pos a zero h = absurd (omega arith)
modulo_pos a (suc m) h = refl

pub not-eq : (a b : ℕ) → a < b → (a == b) ≡ false
not-eq a b h = ground arith

module _ {r : RingBuffer} (v : IsValid r) where
  pub size_internal_lem : size_internal r ≡ some (held_count r)
  unfolding size_internal
  size_internal_lem =
      modulo_pos (sub_size (add_size r.capacity r.put_pos) r.get_pos) r.capacity
        (omega (arith, v.put_in))
      ∙ ap (λ t. some (t % r.capacity)) (omega arith)

  count-ahead : r.get_pos ≤ r.put_pos → held_count r ≡ r.put_pos - r.get_pos
  count-ahead h = mod-eq-sub-mod (omega arith) ∙ mod-eq_of_lt (omega arith) ∙ omega arith

  count-behind : r.put_pos < r.get_pos → held_count r ≡ r.capacity + r.put_pos - r.get_pos
  count-behind h = mod-eq_of_lt (omega arith)

  pub count-lt : held_count r < r.capacity
  count-lt = mod-lt (r.capacity + r.put_pos - r.get_pos) (omega (arith, v.put_in))

  -- The write position is that many cells further than the read position.
  pub put_pos-count : (r.get_pos + held_count r) % r.capacity ≡ r.put_pos
  put_pos-count = elim (dec_le r.get_pos r.put_pos) [
    | yes h ↦
        ap (λ t. t % r.capacity) {y = r.put_pos} (omega (arith, count-ahead h))
        ∙ mod-eq_of_lt (omega arith)
    | no h ↦
        ap (λ t. t % r.capacity) {y = r.capacity + r.put_pos}
          (omega (arith, count-behind (omega arith)))
        ∙ mod-eq-sub-mod (omega arith)
        ∙ mod-eq_of_lt (omega arith)
        ∙ omega arith
  ]

  -- Conversely the distance modulo the ring size determines the count.
  pub count_of_positions :
      (n : ℕ) → n < r.capacity → r.put_pos ≡ (r.get_pos + n) % r.capacity → held_count r ≡ n
  count_of_positions n h e = elim (dec_le r.capacity (r.get_pos + n)) [
    | yes past ↦
        let at : r.put_pos ≡ r.get_pos + n - r.capacity =
          e ∙ mod-eq-sub-mod past ∙ mod-eq_of_lt (omega arith) in
        omega (arith, at, count-behind (omega (arith, at)))
    | no before ↦
        let at : r.put_pos ≡ r.get_pos + n = e ∙ mod-eq_of_lt (omega arith) in
        omega (arith, at, count-ahead (omega (arith, at)))
  ]

  -- `full` of a valid ring, whose mutex is free, never says yes.
  pub full_never : full false r ≡ some false
  unfolding full full_internal locking
  full_never =
      rw size_internal_lem (ap some (not-eq (held_count r) r.capacity (omega (arith, count-lt))))
