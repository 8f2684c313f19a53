-- ===== src/Buffer/Fifo.antt =====
-- What a `Buffer` promises: a FIFO of at most `cap` bytes, oldest first. A write takes the bytes
-- that fit, a read the bytes that are there, and each says how many.
use lp_net.Prelude.{ℕ, ◌-◌, List, [], ◌∷◌, ◌++◌, length, take, drop, min}

abbrev pub Fifo : Type 0
Fifo = List ℕ

pub data Op : Type 0 where
  writes : List ℕ → Op
  reads : ℕ → Op

-- The count that the call returns, and the bytes that it hands out.
abbrev pub Reply : Type 0
Reply = ℕ × List ℕ

abbrev pub put : ℕ → List ℕ → Fifo → ℕ × Fifo
put cap xs q = (min (length xs) (cap - length q), q ++ take (cap - length q) xs)

abbrev pub get : ℕ → Fifo → Reply × Fifo
get n q = ((min n (length q), take n q), drop n q)

unfoldable pub run : ℕ → Fifo → List Op → List Reply
run cap q [] = []
run cap q (writes xs ∷ ops) = let (n, q') = put cap xs q in (n, []) ∷ run cap q' ops
run cap q (reads n ∷ ops) = let (r, q') = get n q in r ∷ run cap q' ops
