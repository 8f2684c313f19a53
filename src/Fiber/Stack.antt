-- ===== src/Fiber/Stack.antt =====
-- What a fiber keeps of its stack.
use lp_net.Prelude.{
  sym, ◌++◌, take, leb, ℕ, ◌-◌, ◌≤◌, ◌≡◌, refl, ap, ◌∙◌, arith, List, some, true, ltb, leb,
  if◌then◌else◌, length, drop, length-append, length-drop, take-append_length,
}
use lp_net.Fiber.{in_use, Fiber, buffer_size, copy_in, save_stack, load_stack}

-- The buffer has as many bytes as `buf_cap_` says.
pub record IsValid (f : Fiber) : Type 0 where
  pub allocated : length f.buffer ≡ f.buf_cap

length-in_use :
    (used : ℕ) (memory : List ℕ) → used ≤ length memory → length (in_use used memory) ≡ used
unfolding in_use
length-in_use used memory h = omega (arith, length-drop (length memory - used) memory, h)

module _ (new_array : ℕ → List ℕ) (sized : (n : ℕ) → length (new_array n) ≡ n) where
  -- With no more of the stack in use than the limit and the stack's memory allow, `saveStack` copies only inside of the buffer and keeps
  -- `buf_cap_` the number of its bytes. `loadStack` to a memory that has room for them then puts the bytes that were
  -- in use back at its end, in the same order, and leaves the rest of it as it was.
  pub save_stack-load_stack :
      (f : Fiber) (memory memory' : List ℕ) (used : ℕ)
      → IsValid f
      → used ≤ buffer_size
      → used ≤ length memory
      → used ≤ length memory'
      → (f' : Fiber) × (save_stack new_array f memory used ≡ some f')
        × IsValid f'
        × (f'.status ≡ f.status)
        × (load_stack f' memory'
            ≡ some (take (length memory' - used) memory' ++ in_use used memory))
  unfolding save_stack load_stack copy_in
  save_stack-load_stack f memory memory' used v small there room =
      rw (fits, copied)
        (
          saved,
          refl,
          record { allocated = held },
          refl,
          rw (kept, room_left)
              (ap (λ bytes. some (take (length memory' - used) memory' ++ bytes)) front),
        )
    where
      stack : List ℕ
      stack = in_use used memory

      target : List ℕ
      target = if ltb f.buf_cap used then new_array used else f.buffer

      saved : Fiber
      saved = record f {
        buffer = stack ++ drop (length stack) target;
        buf_cap = if ltb f.buf_cap used then used else f.buf_cap;
        buf_size = used;
      }

      size : length stack ≡ used
      size = length-in_use used memory there

      cap : length target ≡ (if ltb f.buf_cap used then used else f.buf_cap)
      cap = ground (arith, sized used, v.allocated)

      enough : used ≤ length target
      enough = ground (arith, cap)

      fits : leb used buffer_size ≡ true
      fits = ground (arith, small)

      copied : leb (length stack) (length target) ≡ true
      copied = ground (arith, size, enough)

      held : length saved.buffer ≡ saved.buf_cap
      held =
          omega (
            arith,
            length-append stack (drop (length stack) target),
            length-drop (length stack) target,
            size,
            enough,
          )
          ∙ cap

      kept : leb used (length saved.buffer) ≡ true
      kept = ground (arith, held, cap, enough)

      room_left : leb used (length memory') ≡ true
      room_left = ground (arith, room)

      front : take used saved.buffer ≡ stack
      front =
          ap (λ n. take n saved.buffer) (sym size)
          ∙ take-append_length stack (drop (length stack) target)
