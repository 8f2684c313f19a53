-- ===== src/Arena/History.antt =====
-- A whole history of calls of an arena, and the memory that it reports.
use lp_net.Prelude.{ℕ, ◌+◌, ◌%◌, ◌^◌, ◌≤◌, ◌≡◌, arith, List, [], ◌∷◌, Option, add_size}
use lp_net.Arena.{Arena, init, allocate_new_block, allocate_fall_back, allocate, allocate_aligned}
use lp_net.Arena.Ranges.{Range, Inv, free, Separate, empty-Inv}
use lp_net.Arena.Separation.{FreshIf, owned_after, allocate-Inv, allocate_aligned-Inv}

-- A call with its size, and the address that `new` returns if it is asked.
pub data Request : Type 0 where
  plain aligned : ℕ → ℕ → Request

abbrev pub bytes : Request → ℕ
bytes (plain n fresh) = n
bytes (aligned n fresh) = n

abbrev pub address : Request → ℕ
address (plain n fresh) = fresh
address (aligned n fresh) = fresh

abbrev pub call : Arena → Request → ℕ × Arena × Option ℕ
call a (plain n fresh) = allocate a n fresh
call a (aligned n fresh) = allocate_aligned a n fresh

-- No size comes near the largest `size_t`, and `new` never returns memory of an earlier block.
abbrev pub Honest : Arena → List Range → List Request → Type 0
Honest a owned [] = Unit
Honest a owned (q ∷ qs) =
    (bytes q + 8 ≤ 2 ^ 64)
    × FreshIf (call a q).2 (address q) owned
    × Honest (call a q).1 (owned_after (call a q).2 (address q) owned) qs

-- The ranges that callers hold after the calls, the last one first.
unfoldable pub run : Arena → List Range → List Request → List Range
run a given [] = given
run a given (q ∷ qs) = run (call a q).1 (((call a q).0, bytes q) ∷ given) qs

call-Inv :
    (a : Arena) (owned given : List Range) (q : Request)
    → Inv (free a) owned given
    → bytes q + 8 ≤ 2 ^ 64
    → FreshIf (call a q).2 (address q) owned
    → Inv
        (free (call a q).1)
        (owned_after (call a q).2 (address q) owned)
        (((call a q).0, bytes q) ∷ given)
call-Inv a owned given (plain n fresh) v small new = allocate-Inv a owned given v n fresh new
call-Inv a owned given (aligned n fresh) v small new =
    allocate_aligned-Inv a owned given v n fresh small new

run_from :
    (qs : List Request) (a : Arena) (owned given : List Range)
    → Inv (free a) owned given
    → Honest a owned qs
    → Separate (run a given qs)
unfolding run
run_from [] a owned given v h = v.separate
run_from (q ∷ qs) a owned given v h =
    run_from qs (call a q).1 (owned_after (call a q).2 (address q) owned)
      (((call a q).0, bytes q) ∷ given) (call-Inv a owned given q v h.0 h.1) h.2

-- No two allocations of an arena share a byte, whatever the sizes and the order of the calls, if
-- `new` hands out fresh memory and no size comes near the largest `size_t`.
pub run-Separate : (qs : List Request) → Honest init [] qs → Separate (run init [] qs)
run-Separate qs h = run_from qs init [] [] (empty-Inv 0) h

-- The bytes of the blocks, and a pointer for each.
abbrev pub total : List Range → ℕ
total [] = 0
total (r ∷ rs) = r.1 + 8 + total rs

abbrev pub Accounted : Arena → List Range → Type 0
Accounted a owned = a.memory_usage ≡ total owned % 2 ^ 64

charged :
    (usage n rest : ℕ)
    → usage ≡ rest % 2 ^ 64
    → add_size usage (add_size n 8) ≡ (n + 8 + rest) % 2 ^ 64
charged usage n rest e = omega arith

-- If `memoryUsage` reports the bytes of all blocks with a pointer for each, modulo 2 ^ 64, it does so
-- after any call.
pub call-Accounted :
    (a : Arena) (owned : List Range) (q : Request)
    → Accounted a owned
    → Accounted (call a q).1 (owned_after (call a q).2 (address q) owned)
unfolding allocate allocate_aligned allocate_fall_back allocate_new_block
call-Accounted a owned (plain n fresh) e =
    ground
      (arith, charged a.memory_usage n (total owned) e, charged a.memory_usage 4096 (total owned) e)
call-Accounted a owned (aligned n fresh) e =
    ground
      (arith, charged a.memory_usage n (total owned) e, charged a.memory_usage 4096 (total owned) e)
