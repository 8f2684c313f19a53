-- ===== src/SafeQueue/Tests.antt =====
-- Tests of `SafeQueue`, and its theorems at a concrete queue.
use lp_net.Prelude.{ℕ, ◌≡◌, refl, arith, [], ◌∷◌, some, true, false}
use lp_net.SafeQueue.{SafeQueue, push, pop}
use lp_net.SafeQueue.Order.{push_all, pop_all, push_all-pop_all}

abbrev one : SafeQueue ℕ
one = record { capacity = 2; q = 7 ∷ [] }

refuses_when_full : push (record one { q = 7 ∷ 8 ∷ [] }) 9 ≡ (false, record one { q = 7 ∷ 8 ∷ [] })
unfolding push
refuses_when_full = refl

pops_in_order : pop one ≡ (true, some 7, record one { q = [] })
unfolding pop
pops_in_order = refl

push_all-pop_all_example :
    let (n, s) = push_all (record one { q = [] }) (4 ∷ 5 ∷ []) in
    (n ≡ 2) × (pop_all s n ≡ (4 ∷ 5 ∷ [], record one { q = [] }))
push_all-pop_all_example = push_all-pop_all (4 ∷ 5 ∷ []) (record one { q = [] }) refl (omega arith)
