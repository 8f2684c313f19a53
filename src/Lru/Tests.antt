-- ===== src/Lru/Tests.antt =====
-- Tests of `LRUReplacer`, and its theorems at a concrete cache.
use lp_net.Prelude.{
  ℕ, ◌≡◌, refl, arith, List, [], ◌∷◌, none, some, true, false, take, ℕ_discrete as dec,
}
use lp_net.Lru.{LruReplacer, init, pop_back, take_out, insert, access}
use lp_net.Lru.Entries.{keys, find}
use lp_net.Lru.Order.{IsValid}
use lp_net.Lru.History.{recent, run, run-recent}

abbrev two : LruReplacer ℕ ℕ
two = record { capacity = 2; caches = (2, 20) ∷ (1, 10) ∷ [] }

two-IsValid : IsValid dec two
unfolding find dec
two-IsValid = record {
  positive = omega arith;
  bounded = omega arith;
  distinct = (refl, (refl, tt));
}

hit_moves_to_front :
    access dec two 1 99 ≡ some (true, 10, record two { caches = (1, 10) ∷ (2, 20) ∷ [] })
unfolding access take_out insert pop_back dec
hit_moves_to_front = refl

miss_evicts_the_last :
    access dec two 3 30 ≡ some (false, 30, record two { caches = (3, 30) ∷ (2, 20) ∷ [] })
unfolding access take_out insert pop_back dec
miss_evicts_the_last = refl

-- With no capacity the first insertion pops from an empty list.
no_capacity : access dec (init {K = ℕ} {V = ℕ} 0) 1 10 ≡ none
unfolding init access take_out insert pop_back dec
no_capacity = refl

abbrev calls : List (ℕ × ℕ)
calls = (1, 0) ∷ (3, 30) ∷ (1, 0) ∷ []

run-recent_example :
    (r' : LruReplacer ℕ ℕ) × (run dec two calls ≡ some r')
    × (keys r'.caches ≡ take 2 (recent dec (2 ∷ 1 ∷ []) (keys calls)))
    × IsValid dec r'
run-recent_example = run-recent dec calls two (2 ∷ 1 ∷ []) two-IsValid refl
