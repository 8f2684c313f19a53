-- ===== src/Lru/Removal.antt =====
-- `evite` and `remove`: taking one entry out.
use lp_net.Prelude.{◌≡◌, ◌≢◌, refl, none, Option-cases, inl, inr}
use lp_net.Lru.{LruReplacer, take_out, evite, remove}
use lp_net.Lru.Entries.{
  find, without, Distinct, take_out_found, take_out_absent, without_absent, find-without_ne,
  find-without_self, without-Distinct,
}
use lp_net.Lru.Order.{answer}

module _ {ℓ} {K V : Type ℓ} (dec : Discrete K) (r : LruReplacer K V) (key : K) where
  evite_lem :
      (value : V)
      → let (hit, v) = answer dec (find dec key r.caches) value in
        evite dec r key value ≡ (hit, v, record r { caches = without dec key r.caches })
  unfolding evite
  evite_lem value = elim (Option-cases (find dec key r.caches)) [
    | inl absent ↦
        rw
          (
            absent,
            take_out_absent dec key r.caches absent,
            evite,
            without_absent dec key r.caches absent,
          )
          refl
    | inr (w, found) ↦ rw (found, take_out_found dec key r.caches w found, evite) refl
  ]

  -- Where no key stands twice, `evite` says whether the key was there and gives its value, takes just this entry out, and
  -- leaves any other key what it found.
  pub evite_takes_out :
      (value : V) (other : K)
      → key ≢ other
      → Distinct dec r.caches
      → let (hit, v, r') = evite dec r key value in
        ((hit, v) ≡ answer dec (find dec key r.caches) value)
        × (find dec key r'.caches ≡ none)
        × (find dec other r'.caches ≡ find dec other r.caches)
        × Distinct dec r'.caches
  evite_takes_out value other h d = rw (evite_lem value) (
    refl,
    find-without_self dec key r.caches d,
    find-without_ne dec key other r.caches h,
    without-Distinct dec key r.caches d,
  )

  -- `remove` does what `evite` does, without the value.
  pub remove-eq-evite :
      (value : V) → let (hit, v, r') = evite dec r key value in remove dec r key ≡ (hit, r')
  unfolding evite remove
  remove-eq-evite value = elim (Option-cases (take_out dec key r.caches)) [
    | inl absent ↦ rw (absent, evite, remove) refl
    | inr (found, e) ↦ rw (e, evite, remove) refl
  ]
