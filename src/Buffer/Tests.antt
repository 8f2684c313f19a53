-- ===== src/Buffer/Tests.antt =====
-- Tests of `Buffer`, and its theorems at concrete buffers.
use lp_net.Prelude.{
  pos, to_int, ℕ, ◌≡◌, refl, arith, List, [], ◌∷◌, Option, none, some, ◌>>=◌, length, take,
  replicate, length-replicate, min,
}
use lp_net.Buffer.{
  Buffer, size, readable_bytes, writable_bytes, index_of, copy_out, copy_in, fill, read, drain,
  write, reset, match_at, find_from, int_of_place, find,
}
use lp_net.Buffer.Fifo.{Op, writes, reads}
use lp_net.Buffer.Fifo
use lp_net.Buffer.Inv.{size-le-capacity, IsValid}
use lp_net.Buffer.Refine.{contents}
use lp_net.Buffer.Run.{run, run_refines}
use lp_net.Buffer.Search.{IsFirst}
use lp_net.Buffer.Find.{place_or_minus_one, find-IsFirst}
use lp_net.Buffer.Reset.{reset-read-write_out}

-- 7, 8, 9 round the end of five bytes.
abbrev wrapped : Buffer
wrapped = record { capacity = 4; put_pos = 1; get_pos = 3; cells = 9 ∷ 0 ∷ 0 ∷ 7 ∷ 8 ∷ [] }

-- 7, 8 in one piece.
abbrev straight : Buffer
straight = record { capacity = 4; put_pos = 3; get_pos = 1; cells = 0 ∷ 7 ∷ 8 ∷ 0 ∷ 0 ∷ [] }

wrapped-IsValid : IsValid wrapped
wrapped-IsValid = omega arith

straight-IsValid : IsValid straight
straight-IsValid = omega arith

sizes : (size wrapped ≡ 3) × (writable_bytes wrapped ≡ 1) × (size straight ≡ 2)
unfolding size writable_bytes
sizes = (refl, refl, refl)

read_wraps :
    read wrapped (some (0 ∷ 0 ∷ 5 ∷ [])) 2
    ≡ some (some (7 ∷ 8 ∷ 5 ∷ []), 2, record wrapped { get_pos = 0 })
unfolding read fill copy_out index_of readable_bytes size
read_wraps = refl

write_stops_when_full :
    write wrapped (some (1 ∷ 2 ∷ [])) 2
    ≡ some (1, record wrapped { put_pos = 2; cells = 9 ∷ 1 ∷ 0 ∷ 7 ∷ 8 ∷ [] })
unfolding write drain copy_in index_of size
write_stops_when_full = refl

find_wraps : find wrapped (8 ∷ 9 ∷ []) ≡ some (pos 1)
unfolding find find_from match_at index_of size int_of_place to_int
find_wraps = refl

script : List Op
script = writes (1 ∷ 2 ∷ []) ∷ reads 2 ∷ writes (3 ∷ []) ∷ reads 9 ∷ []

run_refines_example : run wrapped script ≡ some (Fifo.run 4 (contents wrapped) script)
run_refines_example = run_refines script wrapped-IsValid

find-IsFirst_example :
    (r : Option ℕ) × (find wrapped (8 ∷ 9 ∷ []) ≡ some (place_or_minus_one r))
    × IsFirst (8 ∷ 9 ∷ []) (contents wrapped) r
find-IsFirst_example =
    find-IsFirst wrapped-IsValid (8 ∷ 9 ∷ []) (omega (arith, size-le-capacity wrapped-IsValid))
      (omega arith)

-- What `new char[n]` may return.
abbrev zeros : ℕ → List ℕ
zeros n = replicate n 0

length-zeros : (n : ℕ) → length (zeros n) ≡ n
length-zeros n = length-replicate n 0

reset-read-write_out_example :
    (reset zeros wrapped 2 >>= λ b'.
    read b' none (size b') >>= λ r. write r.2 (some (1 ∷ 2 ∷ [])) 2)
    ≡ none
unfolding size
reset-read-write_out_example =
    reset-read-write_out zeros length-zeros wrapped 2 (1 ∷ 2 ∷ []) wrapped-IsValid (omega arith)
      (omega arith) (omega arith) refl

-- A socket that takes at most one byte, and one that delivers two.
abbrev take_one : List ℕ → Option ℕ
take_one xs = some (min 1 (length xs))

abbrev deliver_two : ℕ → Option (List ℕ)
deliver_two len = some (take len (5 ∷ 6 ∷ []))

-- Three bytes are free, and two of them lie before the end of the array.
abbrev late : Buffer
late = record { capacity = 4; put_pos = 4; get_pos = 3; cells = 0 ∷ 0 ∷ 0 ∷ 7 ∷ 0 ∷ [] }
