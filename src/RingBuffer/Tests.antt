-- ===== src/RingBuffer/Tests.antt =====
-- Tests of `RingBuffer`.
use lp_net.Prelude.{◌≡◌, refl, arith, [], ◌∷◌, some, false, ◌>>=◌}
use lp_net.RingBuffer.{RingBuffer, modulo, size_internal, locking, put, push_copy}
use lp_net.RingBuffer.Contents.{IsValid}

abbrev two : RingBuffer
two = record { capacity = 3; put_pos = 1; get_pos = 2; cells = 9 ∷ 0 ∷ 8 ∷ [] }

two-IsValid : IsValid two
two-IsValid = omega arith

-- The third element makes a ring of three look empty.
third_push_loses_all : (push_copy false two 7 >>= λ out. size_internal out.1) ≡ some 0
unfolding push_copy size_internal locking put modulo
third_push_loses_all = refl
