-- ===== src/Arena/Tests.antt =====
-- Tests of `Arena`, and its theorems at a short history of calls.
use lp_net.Prelude.{ℕ, ◌≤◌, ◌<◌, ◌≡◌, ◌⊎◌, refl, arith, List, [], ◌∷◌}
use lp_net.Arena.{
  Arena, init, allocate_new_block, allocate_fall_back, allocate, slop_of, allocate_aligned,
}
use lp_net.Arena.Ranges.{Separate}
use lp_net.Arena.History.{
  Request, plain, aligned, Honest, run, run-Separate, Accounted, call, call-Accounted,
}
use lp_net.Arena.Separation.{owned_after}

program : Unit {0}
unfolding allocate allocate_aligned allocate_fall_back allocate_new_block slop_of run
program = tt

-- Three bytes from a block at 4096, eight aligned ones behind them, and a large one of its own.
abbrev requests : List Request
requests = plain 3 4096 ∷ aligned 8 0 ∷ plain 5000 16384 ∷ []

places : run init [] requests ≡ (16384, 5000) ∷ (4104, 8) ∷ (4096, 3) ∷ []
unfolding program
places = refl

requests-Honest : Honest init [] requests
unfolding program
requests-Honest =
    (omega arith, λ x w c. c, (omega arith, tt, (omega arith, λ x w c. apart x w c, tt)))
  where
    apart : (x : ℕ) → (16384 ≤ x) × (x < 21384) → ((4096 ≤ x) × (x < 8192)) ⊎ ⊥ → ⊥
    apart x w c = omega arith

run-Separate_example : Separate (run init [] requests)
run-Separate_example = run-Separate requests requests-Honest

skewed : Arena
skewed = record {
  alloc_ptr = 4099;
  alloc_bytes_remaining = 4093;
  blocks = 4096 ∷ [];
  memory_usage = 4104;
}

call-Accounted_example :
    Accounted
      (call skewed (plain 5000 16384)).1
      (owned_after (call skewed (plain 5000 16384)).2 16384 ((4096, 4096) ∷ []))
unfolding skewed
call-Accounted_example = call-Accounted skewed ((4096, 4096) ∷ []) (plain 5000 16384) refl
