-- ===== src/BufferReader/Tests.antt =====
-- The theorems on `BufferReader` at concrete buffers.
use lp_net.Prelude.{
  refl, ap, ltb, some, ◌-◌, pos, to_int, ℕ, ◌-◌, ◌≡◌, arith, List, [], ◌∷◌, ◌++◌, Option, some,
  length, take, drop, min, replicate, length-replicate,
}
use lp_net.Buffer.{Buffer, size}
use lp_net.Buffer.Inv.{IsValid, size-le-capacity, size_ahead, init_lem}
use lp_net.Buffer.Refine.{contents, Consumed}
use lp_net.Buffer.Search.{IsFirst}
use lp_net.BufferReader.Receiving.{read_fd-sends, read_fd_empty}
use lp_net.Buffer
use lp_net.BufferReader.{read_fd, append, find_and_skip}
use lp_net.BufferReader.Growth.{grown, append_lem}
use lp_net.BufferReader.Skipping.{past, skipped, find_and_skip_lem}

abbrev zeros : ℕ → List ℕ
zeros n = replicate n 0

length-zeros : (n : ℕ) → length (zeros n) ≡ n
length-zeros n = length-replicate n 0

-- 7, 8, 9 round the end of five bytes.
abbrev wrapped : Buffer
wrapped = record { capacity = 4; put_pos = 1; get_pos = 3; cells = 9 ∷ 0 ∷ 0 ∷ 7 ∷ 8 ∷ [] }

wrapped-IsValid : IsValid wrapped
wrapped-IsValid = omega arith

append_lem_example :
    (b' : Buffer) × (append zeros wrapped (5 ∷ 6 ∷ []) 2 ≡ some (pos 2, b'))
    × (contents b' ≡ contents wrapped ++ take (min 2 (grown wrapped - size wrapped)) (5 ∷ 6 ∷ []))
    × (b'.capacity ≡ grown wrapped)
unfolding to_int
append_lem_example =
    append_lem zeros length-zeros (5 ∷ 6 ∷ []) 2 wrapped-IsValid (omega arith) (omega arith)

find_and_skip_lem_example :
    (place : Option ℕ) × IsFirst (8 ∷ []) (contents wrapped) place
    × ((b' : Buffer) × (find_and_skip wrapped (8 ∷ []) ≡ some (past (8 ∷ []) place, b'))
        × (contents b' ≡ drop (skipped (8 ∷ []) place) (contents wrapped))
        × IsValid b')
find_and_skip_lem_example =
    find_and_skip_lem wrapped-IsValid (8 ∷ []) (omega (arith, size-le-capacity wrapped-IsValid))

-- A reader with 7 and 8 and much room.
abbrev roomy : Buffer
roomy = record { capacity = 5000; put_pos = 2; get_pos = 0; cells = 7 ∷ 8 ∷ zeros 4999 }

roomy-IsValid : IsValid roomy
roomy-IsValid = record {
  allocated = omega (arith, length-zeros 4999);
  put_in = omega arith;
  get_in = omega arith;
  small = omega arith;
}

size-roomy : size roomy ≡ 2
size-roomy = size_ahead {b = roomy} roomy-IsValid (omega arith)

-- A socket that takes one byte of any message, and none of no bytes.
abbrev take_one : List ℕ → Option ℕ
take_one [] = some 0
take_one (x ∷ xs) = some 1

abbrev one_always : List ℕ → Option ℕ
one_always bytes = some 1

read_fd-sends_example :
    (b' : Buffer) × (read_fd zeros one_always roomy ≡ some (1, b')) × Consumed roomy 1 b'
read_fd-sends_example =
    read_fd-sends zeros length-zeros one_always roomy roomy-IsValid (omega arith)
      (ap (λ n. ltb (5000 - n) 4096) size-roomy) (omega (arith, size-roomy))
      (omega (arith, size-roomy))

read_fd_empty_example :
    (b' : Buffer) × (read_fd zeros take_one (Buffer.init zeros 1000) ≡ some (0, b')) × (size b' ≡ 0)
read_fd_empty_example =
    let (v, none_yet, start, cap) = init_lem zeros 1000 length-zeros (omega arith) in
    read_fd_empty zeros length-zeros take_one (Buffer.init zeros 1000) v (omega (arith, cap))
      none_yet refl
