-- ===== src/Connector/Retries.antt =====
-- The delays of the attempts of a connector.
use mathlib.Core.Path.{subst}
use lp_net.Prelude.{
  ℕ, suc, ◌≤◌, ◌≡◌, arith, List, [], ◌∷◌, ◌++◌, Option, none, some, Bool, true, false, not, ◌||◌,
  ◌>>=◌, if◌then◌else◌,
}
use lp_net.Connector.{
  is_positive, is_valid, close_socket, Connector, init, doubled, answered, close, connect,
  after_retry, retry, fire_first, fire,
}

-- What a program and its scheduler do with a connector; `connects` has the address.
pub data Happening : Type 0 where
  connects : ℕ → Happening
  fires : Happening
  closes_it : Happening

-- Every delay is from 500 to 30000.
unfoldable pub InBounds : List ℕ → Type 0
InBounds [] = Unit
InBounds (d ∷ ds) = (500 ≤ d) × (d ≤ 30000) × InBounds ds

InBounds-append :
    (ds : List ℕ) (d : ℕ) → InBounds ds → 500 ≤ d → d ≤ 30000 → InBounds (ds ++ d ∷ [])
unfolding InBounds
InBounds-append [] d h low high = (low, high, tt)
InBounds-append (x ∷ ds) d h low high = (h.0, h.1, InBounds-append ds d h.2 low high)

module _ (closes : ℕ → Bool) (dial : Option ℕ → ℕ → ℕ → Option ℕ) (stale : ℕ → Option ℕ) where
  unfoldable pub happen : Connector → Happening → Option Connector
  happen c (connects address) = some (connect dial c address).1
  happen c fires = fire dial stale c
  happen c closes_it = some (close closes c)

  unfoldable pub happen_all : Connector → List Happening → Option Connector
  happen_all c [] = some c
  happen_all c (h ∷ hs) = happen c h >>= λ c'. happen_all c' hs

  InRange : Connector → Type 0
  InRange c = (500 ≤ c.next_retry_interval) × (c.next_retry_interval ≤ 30000) × InBounds c.posted

  -- A connector in range, if there is one.
  Ranged : Option Connector → Type 0
  Ranged none = Unit
  Ranged (some c) = InRange c

  answered-InRange : (c : Connector) (o : Option ℕ) → InRange c → InRange (answered c o).1
  unfolding answered InRange
  answered-InRange c none h = (h.0, h.1, InBounds-append c.posted c.next_retry_interval h.2 h.0 h.1)
  answered-InRange c (some fd) h = (omega arith, omega arith, h.2)

  connect-InRange : (c : Connector) (address : ℕ) → InRange c → InRange (connect dial c address).1
  unfolding connect InRange
  connect-InRange c address h = by_test (c.connecting || not (is_positive c.retry_times))
    where
      by_test :
          (b : Bool)
          → InRange
              (if b
                then (false, c)
                else answered
                    (record c { attempts = suc c.attempts })
                    (dial c.sockfd address c.attempts)).1
      by_test true = h
      by_test false =
          answered-InRange (record c { attempts = suc c.attempts })
            (dial c.sockfd address c.attempts) h

  doubled_range : (n : ℕ) → 500 ≤ n → (500 ≤ doubled n) × (doubled n ≤ 30000)
  unfolding doubled
  doubled_range n h = (ground (arith, h), ground arith)

  after-InRange : (out : Bool × Connector) → InRange out.1 → InRange (after_retry dial out)
  unfolding after_retry InRange
  after-InRange (true, d) k = k
  after-InRange (false, d) k = k

  fire_first-Ranged :
      (c : Connector) (ds : List ℕ) → InRange c → InBounds ds → Ranged (fire_first dial stale c ds)
  unfolding fire_first retry Ranged InRange InBounds
  fire_first-Ranged c [] h k = h
  fire_first-Ranged c (d ∷ ds) h k = by_address (stale c.attempts)
    where
      waiting : Connector
      waiting = record c { posted = ds; next_retry_interval = doubled c.next_retry_interval }

      by_address :
          (o : Option ℕ)
          → Ranged (o >>= λ address. some (after_retry dial (connect dial waiting address)))
      by_address none = tt
      by_address (some address) =
          let (low, high) = doubled_range c.next_retry_interval h.0 in
          after-InRange (connect dial waiting address)
            (connect-InRange waiting address (low, high, k.2))

  close-InRange : (c : Connector) → InRange c → InRange (close closes c)
  unfolding close InRange
  close-InRange c h =
      by_flag c.connecting (if is_valid c.sockfd then close_socket closes c.sockfd else c.sockfd)
        (if c.has_disconnect_cb then suc c.disconnects else c.disconnects)
    where
      by_flag :
          (b : Bool) (s : Option ℕ) (n : ℕ)
          → InRange (if b then record c { sockfd = s; disconnects = n; connecting = false } else c)
      by_flag true s n = h
      by_flag false s n = h

  happen-Ranged : (c : Connector) (h : Happening) → InRange c → Ranged (happen c h)
  unfolding happen Ranged fire InRange
  happen-Ranged c (connects address) k = connect-InRange c address k
  happen-Ranged c fires k = fire_first-Ranged c c.posted k k.2
  happen-Ranged c closes_it k = close-InRange c k

  Ranged-bind :
      (o : Option Connector) (f : Connector → Option Connector)
      → Ranged o
      → ((c : Connector) → InRange c → Ranged (f c))
      → Ranged (o >>= f)
  unfolding Ranged
  Ranged-bind none f h k = tt
  Ranged-bind (some c) f h k = k c h

  happen_all-Ranged : (hs : List Happening) (c : Connector) → InRange c → Ranged (happen_all c hs)
  unfolding happen_all Ranged
  happen_all-Ranged [] c k = k
  happen_all-Ranged (h ∷ hs) c k =
      Ranged-bind (happen c h) _ (happen-Ranged c h k) (happen_all-Ranged hs)

  -- Whatever is done with a new connector and whatever the network answers, as long as no event faults: every delay that
  -- waits with the scheduler, and the delay that the connector would give it next, is from 500 to 30000
  -- milliseconds. The delays are those that are asked for; the scheduler may run an event sooner.
  pub interval_bounds :
      (fd : Option ℕ) (has_cb : Bool) (hs : List Happening) (c : Connector)
      → happen_all (init fd has_cb) hs ≡ some c
      → InBounds c.posted × (500 ≤ c.next_retry_interval) × (c.next_retry_interval ≤ 30000)
  unfolding InRange Ranged init InBounds
  interval_bounds fd has_cb hs c ran =
      let kept : Ranged (some c) =
        subst Ranged ran (happen_all-Ranged hs (init fd has_cb) (omega arith, omega arith, tt)) in
      (kept.2, kept.0, kept.1)
