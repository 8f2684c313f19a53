-- ===== src/Connector/Outcome.antt =====
-- What the callback of a connector is given.
use mathlib.Core.Path.{subst}
use lp_net.Prelude.{
  ◌>>=◌, ℕ, suc, ◌≡◌, refl, List, [], ◌∷◌, ◌++◌, Option, none, some, Bool, true, false, not, ◌||◌,
  if◌then◌else◌,
}
use lp_net.Connector.{
  is_positive, is_valid, close_socket, Connector, init, doubled, answered, close, connect,
  after_retry, retry, fire_first, fire,
}
use lp_net.Connector.Retries.{Happening, connects, fires, closes_it, happen, happen_all}

-- A property of the flag, the arguments of the callback and the descriptor is kept by every happening, if
-- it is kept by an answer of the network and by `close`.
module _ (closes : ℕ → Bool) (dial : Option ℕ → ℕ → ℕ → Option ℕ) (stale : ℕ → Option ℕ)
    (P : Bool → List ℕ → Option ℕ → Type 0)
    (on_answer : (on : Bool) (l : List ℕ) (s : Option ℕ) (address n fd : ℕ)
      → P on l s
      → dial s address n ≡ some fd
      → P true (l ++ fd ∷ []) s)
    (on_close : (l : List ℕ) (s : Option ℕ)
      → P true l s
      → P false l (if is_valid s then close_socket closes s else s)) where
  abbrev Holds : Connector → Type 0
  Holds c = P c.connecting c.connected c.sockfd

  -- The same of a connector, if there is one.
  abbrev HoldsIn : Option Connector → Type 0
  HoldsIn none = Unit
  HoldsIn (some c) = Holds c

  answered-Holds :
      (c : Connector) (address n : ℕ) (o : Option ℕ)
      → dial c.sockfd address n ≡ o
      → Holds c
      → Holds (answered c o).1
  unfolding answered
  answered-Holds c address n none e h = h
  answered-Holds c address n (some fd) e h =
      on_answer c.connecting c.connected c.sockfd address n fd h e

  connect-Holds : (c : Connector) (address : ℕ) → Holds c → Holds (connect dial c address).1
  unfolding connect
  connect-Holds c address h = by_test (c.connecting || not (is_positive c.retry_times))
    where
      by_test :
          (b : Bool)
          → Holds
              (if b
                then (false, c)
                else answered
                    (record c { attempts = suc c.attempts })
                    (dial c.sockfd address c.attempts)).1
      by_test true = h
      by_test false =
          answered-Holds (record c { attempts = suc c.attempts }) address c.attempts
            (dial c.sockfd address c.attempts) refl h

  fire_first-Holds : (c : Connector) (ds : List ℕ) → Holds c → HoldsIn (fire_first dial stale c ds)
  unfolding fire_first retry after_retry
  fire_first-Holds c [] h = h
  fire_first-Holds c (d ∷ ds) h = by_address (stale c.attempts)
    where
      waiting : Connector
      waiting = record c { posted = ds; next_retry_interval = doubled c.next_retry_interval }

      after : (out : Bool × Connector) → Holds out.1 → Holds (after_retry dial out)
      after (true, c') k = k
      after (false, c') k = k

      by_address :
          (o : Option ℕ)
          → HoldsIn (o >>= λ address. some (after_retry dial (connect dial waiting address)))
      by_address none = tt
      by_address (some address) =
          after (connect dial waiting address) (connect-Holds waiting address h)

  close-Holds : (c : Connector) → Holds c → Holds (close closes c)
  unfolding close
  close-Holds c h = by_flag c.connecting h
    where
      by_flag :
          (b : Bool)
          → P b c.connected c.sockfd
          → Holds (
              if b
              then record c {
                sockfd = if is_valid c.sockfd then close_socket closes c.sockfd else c.sockfd;
                disconnects = if c.has_disconnect_cb then suc c.disconnects else c.disconnects;
                connecting = false;
              }
              else record c { connecting = b })
      by_flag true k = on_close c.connected c.sockfd k
      by_flag false k = k

  happen-Holds : (c : Connector) (h : Happening) → Holds c → HoldsIn (happen closes dial stale c h)
  unfolding happen fire
  happen-Holds c (connects address) k = connect-Holds c address k
  happen-Holds c fires k = fire_first-Holds c c.posted k
  happen-Holds c closes_it k = close-Holds c k

  HoldsIn-bind :
      (o : Option Connector) (f : Connector → Option Connector)
      → HoldsIn o
      → ((c : Connector) → Holds c → HoldsIn (f c))
      → HoldsIn (o >>= f)
  HoldsIn-bind none f h k = tt
  HoldsIn-bind (some c) f h k = k c h

  happen_all-Holds :
      (hs : List Happening) (c : Connector) → Holds c → HoldsIn (happen_all closes dial stale c hs)
  unfolding happen_all
  happen_all-Holds [] c k = k
  happen_all-Holds (h ∷ hs) c k =
      HoldsIn-bind (happen closes dial stale c h) _ (happen-Holds c h k) (happen_all-Holds hs)

-- All elements are 0.
unfoldable pub IsZeros : List ℕ → Type 0
IsZeros [] = Unit
IsZeros (x ∷ xs) = (x ≡ 0) × IsZeros xs

IsZeros-append : (l : List ℕ) (x : ℕ) → IsZeros l → x ≡ 0 → IsZeros (l ++ x ∷ [])
unfolding IsZeros
IsZeros-append [] x h e = (e, tt)
IsZeros-append (y ∷ l) x h e = (h.0, IsZeros-append l x h.1 e)

-- The operating system answers 0 to a `connect` that succeeds; then whatever is done with a new connector, its
-- callback is given 0 for each connection, and not the descriptor of the socket, as long as no event faults.
pub callback_gets_zero :
    (closes : ℕ → Bool) (dial : Option ℕ → ℕ → ℕ → Option ℕ) (stale : ℕ → Option ℕ)
    → ((s : Option ℕ) (address n fd : ℕ) → dial s address n ≡ some fd → fd ≡ 0)
    → (fd : Option ℕ) (has_cb : Bool) (hs : List Happening) (c : Connector)
    → happen_all closes dial stale (init fd has_cb) hs ≡ some c
    → IsZeros c.connected
unfolding init IsZeros
callback_gets_zero closes dial stale zero_answer fd has_cb hs c ran =
    subst (HoldsIn closes dial stale (λ on l s. IsZeros l) answer kept) ran
      (happen_all-Holds closes dial stale (λ on l s. IsZeros l) answer kept hs (init fd has_cb) tt)
  where
    answer :
        (on : Bool) (l : List ℕ) (s : Option ℕ) (address n x : ℕ)
        → IsZeros l
        → dial s address n ≡ some x
        → IsZeros (l ++ x ∷ [])
    answer on l s address n x h e = IsZeros-append l x h (zero_answer s address n x e)

    kept : (l : List ℕ) (s : Option ℕ) → IsZeros l → IsZeros l
    kept l s h = h
