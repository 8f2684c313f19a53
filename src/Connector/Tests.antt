-- ===== src/Connector/Tests.antt =====
-- The theorems on `Connector` at concrete networks.
use mathlib.Core.Option.{none-ne-some, some-injective}
use lp_net.Prelude.{
  ◌≤◌, ◌==◌, if◌then◌else◌, Bool, false, sym, ℕ, ◌≤◌, ◌≡◌, refl, sym, [], ◌∷◌, Option, none, some,
  Bool, true, false,
}
use lp_net.Connector.{
  Connector, init, connect, answered, is_positive, fire, fire_first, retry, after_retry, doubled,
}
use lp_net.Connector.Retries.{connects, fires, happen, happen_all, InBounds, interval_bounds}
use lp_net.Connector.Outcome.{IsZeros, callback_gets_zero}

-- A network that refuses the first attempt and accepts the others with a descriptor, and an address that is still there.
abbrev second_time : Option ℕ → ℕ → ℕ → Option ℕ
second_time none address n = none
second_time (some fd) address n = if n == 0 then none else some 0

if_zero : (b : Bool) (fd : ℕ) → (if b then none else some 0) ≡ some fd → fd ≡ 0
if_zero true fd e = absurd (none-ne-some fd e)
if_zero false fd e = sym (some-injective 0 fd e)

second_time_zero : (s : Option ℕ) (address n fd : ℕ) → second_time s address n ≡ some fd → fd ≡ 0
second_time_zero none address n fd e = absurd (none-ne-some fd e)
second_time_zero (some s) address n fd e = if_zero (n == 0) fd e

abbrev there : ℕ → Option ℕ
there n = some 9

abbrev forgets : ℕ → Bool
forgets fd = true

-- After a `connect` that was refused.
abbrev refused : Connector
refused = record (init (some 4) true) { attempts = 1; posted = 500 ∷ [] }

-- After the event has connected.
abbrev connected_one : Connector
connected_one = record (init (some 4) true) { connecting = true; attempts = 2; connected = 0 ∷ [] }

first_fails :
    happen_all forgets second_time there (init (some 4) true) (connects 9 ∷ []) ≡ some refused
unfolding happen_all happen connect answered is_positive init
first_fails = refl

second_connects :
    happen_all forgets second_time there (init (some 4) true) (connects 9 ∷ fires ∷ [])
    ≡ some connected_one
unfolding happen_all happen connect answered is_positive init fire fire_first retry after_retry
    doubled
second_connects = refl

interval_bounds_example : ((500 ≤ 500) × (500 ≤ 30000) × Unit {0}) × (500 ≤ 500) × (500 ≤ 30000)
unfolding InBounds init
interval_bounds_example =
    interval_bounds forgets second_time there (some 4) true (connects 9 ∷ []) refused first_fails

callback_gets_zero_example : IsZeros connected_one.connected
callback_gets_zero_example =
    callback_gets_zero forgets second_time there second_time_zero (some 4) true
      (connects 9 ∷ fires ∷ []) connected_one second_connects
