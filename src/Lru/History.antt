-- ===== src/Lru/History.antt =====
-- The eviction order: what a sequence of accesses leaves, against the order of all keys ever used.
use lp_net.Prelude.{
  ℕ, zero, suc, ◌≤◌, ◌≡◌, refl, ap, ◌∙◌, arith, List, [], ◌∷◌, Option, some, true, ◌>>=◌, ite,
  if_pos, length, take, take-cons_pos, take_of_length-le, length-take,
}
use lp_net.Lru.{LruReplacer, access}
use lp_net.Lru.Entries.{keys, find, without}
use lp_net.Lru.Order.{IsValid, answer, touched, access_lem, access-IsValid}

module _ {ℓ} {A : Type ℓ} (dec : Discrete A) where
  unfoldable pub del : A → List A → List A
  del q [] = []
  del q (x ∷ xs) = ite (dec x q) xs (x ∷ del q xs)

  -- All the keys used so far, without repetition, the last one used first.
  unfoldable pub recent : List A → List A → List A
  recent history [] = history
  recent history (k ∷ ks) = recent (k ∷ del k history) ks

  length-del-le : (k : A) (l : List A) → length (del k l) ≤ length l
  unfolding del
  length-del-le k [] = omega arith
  length-del-le k (x ∷ l) = ground (arith, length-del-le k l)

  -- To keep `n` keys behind the deleted one, the first `n + 1` are all that matter.
  take-del-take : (n : ℕ) (k : A) (l : List A) → take n (del k (take (suc n) l)) ≡ take n (del k l)
  unfolding del
  take-del-take zero k l = refl
  take-del-take (suc n) k [] = refl
  take-del-take (suc n) k (x ∷ l) = ground (
    arith,
    take-del-take n k l,
    take_of_length-le (suc n) (take (suc n) l) (omega (arith, length-take (suc n) l)),
  )

  pub take-touch :
      (n : ℕ) (k : A) (l : List A) → take n (k ∷ del k (take n l)) ≡ take n (k ∷ del k l)
  take-touch zero k l = refl
  take-touch (suc n) k l = ap (◌∷◌ k) (take-del-take n k l)

keys-take {ℓ} : {K V : Type ℓ} (n : ℕ) (l : List (K × V)) → keys (take n l) ≡ take n (keys l)
keys-take zero l = refl
keys-take (suc n) [] = refl
keys-take (suc n) (e ∷ l) = ap (◌∷◌ e.0) (keys-take n l)

module _ {ℓ} {K V : Type ℓ} (dec : Discrete K) where
  keys-without : (q : K) (l : List (K × V)) → keys (without dec q l) ≡ del dec q (keys l)
  unfolding without del
  keys-without q [] = refl
  keys-without q (e ∷ l) = ground (arith, keys-without q l)

  -- Accesses in order, each with the value that it offers.
  unfoldable pub run : LruReplacer K V → List (K × V) → Option (LruReplacer K V)
  run r [] = some r
  run r (c ∷ calls) = access dec r c.0 c.1 >>= λ out. run out.2 calls

  -- From a valid state that holds the latest keys of a history, no run of accesses fails, and it leaves the keys that were used last, as many as fit, in the
  -- order of their last use: what is evicted is always the key used least recently.
  pub run-recent :
      (calls : List (K × V)) (r : LruReplacer K V) (history : List K)
      → IsValid dec r
      → keys r.caches ≡ take r.capacity history
      → (r' : LruReplacer K V) × (run r calls ≡ some r')
        × (keys r'.caches ≡ take r.capacity (recent dec history (keys calls)))
        × IsValid dec r'
  unfolding run recent
  run-recent [] r history v e = (r, refl, e, v)
  run-recent (c ∷ calls) r history v e =
      let w = (answer dec (find dec c.0 r.caches) c.1).1 in
      rw (access_lem dec r c.0 c.1 v) (
        run-recent calls (touched dec r c.0 w) (c.0 ∷ del dec c.0 history)
          (access-IsValid dec r c.0 w v)
          (keys-take r.capacity ((c.0, w) ∷ without dec c.0 r.caches)
            ∙ ap (λ l. take r.capacity (c.0 ∷ l)) (keys-without c.0 r.caches ∙ ap (del dec c.0) e)
            ∙ take-touch dec r.capacity c.0 history))

  find-touched :
      (r : LruReplacer K V) (key : K) (w : V)
      → IsValid dec r
      → find dec key (touched dec r key w).caches ≡ some w
  unfolding find
  find-touched r key w v =
      rw (take-cons_pos r.capacity (key, w) (without dec key r.caches) v.positive)
        (if_pos (dec key key) refl _ _)

  -- In a valid state, an entry that was just accessed is found by the next access, which returns the same value.
  pub access-access :
      (r : LruReplacer K V) (key : K) (value other : V)
      → IsValid dec r
      → let v = (answer dec (find dec key r.caches) value).1 in
        (access dec r key value >>= λ out. access dec out.2 key other)
        ≡ some (true, v, touched dec (touched dec r key v) key v)
  access-access r key value other v =
      let w = (answer dec (find dec key r.caches) value).1 in
      ap (λ o. o >>= λ out. access dec out.2 key other) (access_lem dec r key value v)
      ∙ access_lem dec (touched dec r key w) key other (access-IsValid dec r key w v)
      ∙ ap
          (λ o. some (
            (answer dec o other).0,
            (answer dec o other).1,
            touched dec (touched dec r key w) key (answer dec o other).1,
          ))
          (find-touched r key w v)
