-- ===== src/Buffer/Run.antt =====
-- A client of a `Buffer`: its calls in order, against the FIFO.
use native.Mathlib.Nat.{min_comm}
use lp_net.Prelude.{
  ℕ, ◌-◌, ◌≡◌, refl, arith, List, [], ◌∷◌, Option, none, some, ◌>>=◌, length, take, replicate, min,
  length-replicate, take-take-append, take-min, drop-min,
}
use lp_net.Buffer.{Buffer, size, read, write}
use lp_net.Buffer.Fifo.{Op, writes, reads, Reply}
use lp_net.Buffer.Fifo
use lp_net.Buffer.Inv.{IsValid}
use lp_net.Buffer.Refine.{contents, length-contents, read_lem, write_lem}

-- The bytes that a call handed out in the caller's array.
abbrev handed : Option (List ℕ) → ℕ → List ℕ
handed none k = []
handed (some s) k = take k s

pub run : Buffer → List Op → Option (List Reply)
run b [] = some []
run b (writes xs ∷ ops) = do
  (n, b') ← write b (some xs) (length xs)
  replies ← run b' ops
  some ((n, []) ∷ replies)
run b (reads n ∷ ops) = do
  (s, k, b') ← read b (some (replicate n 0)) n
  replies ← run b' ops
  some ((k, handed s k) ∷ replies)

-- No sequence of writes and reads tells a valid buffer from the bounded FIFO of its contents, and
-- no access is out of bounds.
pub run_refines :
    (ops : List Op) {b : Buffer}
    → IsValid b
    → run b ops ≡ some (Fifo.run b.capacity (contents b) ops)
unfolding run Fifo.run
run_refines [] v = refl
run_refines (writes xs ∷ ops) {b} v =
    let (b', e, x) = write_lem v xs (length xs) (omega arith) in
    rw
      (
        e,
        run_refines ops x.valid,
        x.longer,
        x.kept.0,
        length-contents b,
        min_comm (length xs),
        taken,
      )
      refl
  where
    taken : take (min (b.capacity - size b) (length xs)) xs ≡ take (b.capacity - size b) xs
    taken = take-min (b.capacity - size b) (length xs) xs refl
run_refines (reads n ∷ ops) {b} v =
    let (b', e, x) =
      read_lem v (replicate n 0) n (omega (arith, length-replicate {0} {A = ℕ} n 0)) in
    rw
      (
        e,
        run_refines ops x.valid,
        x.rest,
        x.kept.0,
        length-contents b,
        take-take-append (min n (size b)) (contents b) _ (omega (arith, length-contents b)),
        take-min n (size b) (contents b) (length-contents b),
        drop-min n (size b) (contents b) (length-contents b),
      )
      refl
