-- ===== src/Lru/Order.antt =====
-- `access`: what it returns on a hit and on a miss, and the order in which it keeps the entries.
use lp_net.Prelude.{
  ℕ, ◌-◌, ◌≤◌, ◌<◌, ◌≡◌, refl, sym, ap, arith, ◌∷◌, Option, none, some, Bool, true, false, leb,
  length, take, take_of_length-le, length-take, Option-cases, inl, inr, Bool-cases, take-cons_pos,
  leb→le,
}
use lp_net.Lru.{LruReplacer, insert, access}
use lp_net.Lru.Entries.{
  find, without, Distinct, take_out_found, take_out_absent, without_absent, length-without,
  find-without_self, without-Distinct, take-Distinct, pop_back-take,
}

lower : (n m : ℕ) → leb m n ≡ false → n ≤ m - 1
lower n m h = ground arith

module _ {ℓ} {K V : Type ℓ} (dec : Discrete K) where
  pub record IsValid (r : LruReplacer K V) : Type ℓ where
    pub positive : 0 < r.capacity
    pub bounded : length r.caches ≤ r.capacity
    pub distinct : Distinct dec r.caches

  -- What `access` returns and stores, from what the key finds.
  abbrev pub answer : Option V → V → Bool × V
  answer none value = (false, value)
  answer (some v) value = (true, v)

  -- The entries with the key moved or put to the front, as many as fit.
  abbrev pub touched : LruReplacer K V → K → V → LruReplacer K V
  touched r key v = record r { caches = take r.capacity ((key, v) ∷ without dec key r.caches) }

  insert_lem :
      (r : LruReplacer K V) (key : K) (value : V)
      → IsValid r
      → find dec key r.caches ≡ none
      → insert dec r key value ≡ some (touched r key value)
  unfolding insert
  insert_lem r key value v absent =
      rw
        (
          take-cons_pos r.capacity (key, value) (without dec key r.caches) v.positive,
          without_absent dec key r.caches absent,
        )
        (elim (Bool-cases (leb r.capacity (length r.caches))) [
          | inl full ↦
              rw
                (
                  full,
                  pop_back-take (r.capacity - 1) r.caches
                      (omega (arith, v.bounded, v.positive, leb→le _ _ full)),
                )
                refl
          | inr room ↦
              rw
                (
                  room,
                  take_of_length-le (r.capacity - 1) r.caches
                      (lower (length r.caches) r.capacity room),
                )
                refl
        ])

  -- In a valid state `access` never takes from an empty list; on a hit it returns true and the stored value, on a
  -- miss false and the given one, and the entry comes first among the entries that fit.
  pub access_lem :
      (r : LruReplacer K V) (key : K) (value : V)
      → IsValid r
      → let (hit, v) = answer (find dec key r.caches) value in
        access dec r key value ≡ some (hit, v, touched r key v)
  unfolding access
  access_lem r key value v = elim (Option-cases (find dec key r.caches)) [
    | inl absent ↦
        rw
          (absent, take_out_absent dec key r.caches absent, access, insert_lem r key value v absent)
          refl
    | inr (w, found) ↦
        rw (found, take_out_found dec key r.caches w found, access)
          (ap (λ l. some (true, w, record r { caches = l }))
            (sym (
              take_of_length-le r.capacity ((key, w) ∷ without dec key r.caches)
                (omega (arith, v.bounded, length-without dec key r.caches w found)))))
  ]

  -- `access` keeps the invariant: never more entries than the capacity, and no key twice.
  pub access-IsValid :
      (r : LruReplacer K V) (key : K) (v : V) → IsValid r → IsValid (touched r key v)
  access-IsValid r key v h = record {
    positive = h.positive;
    bounded = omega (arith, length-take r.capacity ((key, v) ∷ without dec key r.caches));
    distinct = take-Distinct dec r.capacity ((key, v) ∷ without dec key r.caches) (
      find-without_self dec key r.caches h.distinct,
      without-Distinct dec key r.caches h.distinct,
    );
  }
