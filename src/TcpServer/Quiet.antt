-- ===== src/TcpServer/Quiet.antt =====
-- A server all of whose connections are quiet, and what its steps do to them.
use mathlib.Core.Path.{subst}
use lp_net.Prelude.{
  ℕ, suc, ◌≤◌, ◌≡◌, refl, sym, ap, ap₂, ◌∙◌, arith, List, [], ◌∷◌, ◌++◌, Option, none, some, Bool,
  true, false, ltb, ◌==◌, if◌then◌else◌, ◌>>=◌, ◌>>◌, length,
}
use lp_net.RingBuffer.{locking}
use lp_net.TcpConnection.{TcpConnection, ask, lock, unlock, close, close_later, disconnect}
use lp_net.TcpConnection.Idle.{rest}
use lp_net.TcpServer.{
  Event, close_it, remove_it, Connections, TcpServer, find, emplace, replace, goodbyes,
  after_change, change, disconnect_all,
}

-- A connection that does not run and in whose methods no one is.
pub record IsQuiet (c : TcpConnection) : Type 0 where
  pub idle : c.running ≡ false
  pub free : c.held ≡ false

unfoldable pub AllQuiet : Connections → Type 0
AllQuiet [] = Unit
AllQuiet (entry ∷ entries) = IsQuiet entry.1 × AllQuiet entries

-- No removal waits in the scheduler.
unfoldable pub NoRemoval : List Event → Type 0
NoRemoval [] = Unit
NoRemoval (close_it fd ∷ events) = NoRemoval events
NoRemoval (remove_it fd ∷ events) = ⊥

pub NoRemoval-append : (es ds : List Event) → NoRemoval es → NoRemoval ds → NoRemoval (es ++ ds)
unfolding NoRemoval
NoRemoval-append [] ds h k = k
NoRemoval-append (close_it fd ∷ es) ds h k = NoRemoval-append es ds h k
NoRemoval-append (remove_it fd ∷ es) ds h k = absurd h

-- The connections are quiet, at least `n` of them are in the table, and none is about to leave it.
pub record Kept (n : ℕ) (s : TcpServer) : Type 0 where
  pub quiet : AllQuiet s.connections
  pub stays : NoRemoval s.posted
  pub many : n ≤ length s.connections

unfoldable pub Result : ℕ → Option TcpServer → Type 0
Result n none = Unit
Result n (some s) = Kept n s

pub rest-IsQuiet : (c : TcpConnection) → IsQuiet c → rest (λ n. []) (λ x. none) c ≡ c
rest-IsQuiet c q = sym (ap₂ (λ r h. record c { running = r; held = h }) q.idle q.free)

pub close-IsQuiet : (c : TcpConnection) → IsQuiet c → close c ≡ c
unfolding close
close-IsQuiet c q = ap close (sym (rest-IsQuiet c q)) ∙ rest-IsQuiet c q

-- A connection that is quiet, if there is one.
unfoldable pub QuietOption : Option TcpConnection → Type 0
QuietOption none = Unit
QuietOption (some c) = IsQuiet c

pub QuietOption-if :
    (b : Bool) (x y : Option TcpConnection)
    → QuietOption x
    → QuietOption y
    → QuietOption (if b then x else y)
QuietOption-if true x y h k = h
QuietOption-if false x y h k = k

pub AllQuiet-if :
    (b : Bool) (x y : Connections) → AllQuiet x → AllQuiet y → AllQuiet (if b then x else y)
AllQuiet-if true x y h k = h
AllQuiet-if false x y h k = k

pub find-AllQuiet :
    (fd : ℕ) (entries : Connections) → AllQuiet entries → QuietOption (find fd entries)
unfolding find AllQuiet QuietOption
find-AllQuiet fd [] h = tt
find-AllQuiet fd (entry ∷ entries) h =
    QuietOption-if (entry.0 == fd) (some entry.1) (find fd entries) h.0
      (find-AllQuiet fd entries h.1)

pub length-replace :
    (fd : ℕ) (c : TcpConnection) (entries : Connections)
    → length (replace fd c entries) ≡ length entries
unfolding replace
length-replace fd c [] = refl
length-replace fd c (entry ∷ entries) = ground (arith, length-replace fd c entries)

pub length-emplace :
    (fd : ℕ) (c : TcpConnection) (entries : Connections)
    → length entries ≤ length (emplace fd c entries)
unfolding emplace
length-emplace fd c [] = omega arith
length-emplace fd c (entry ∷ entries) = ground (arith, length-emplace fd c entries)

pub replace-AllQuiet :
    (fd : ℕ) (c : TcpConnection) (entries : Connections)
    → IsQuiet c
    → AllQuiet entries
    → AllQuiet (replace fd c entries)
unfolding replace AllQuiet
replace-AllQuiet fd c [] q h = tt
replace-AllQuiet fd c (entry ∷ entries) q h =
    AllQuiet-if (entry.0 == fd) ((fd, c) ∷ entries) (entry ∷ replace fd c entries) (q, h.1)
      (h.0, replace-AllQuiet fd c entries q h.1)

pub emplace-AllQuiet :
    (fd : ℕ) (c : TcpConnection) (entries : Connections)
    → IsQuiet c
    → AllQuiet entries
    → AllQuiet (emplace fd c entries)
unfolding emplace AllQuiet
emplace-AllQuiet fd c [] q h = (q, tt)
emplace-AllQuiet fd c (entry ∷ entries) q h =
    AllQuiet-if (entry.0 == fd) (entry ∷ entries) (entry ∷ emplace fd c entries) h
      (h.0, emplace-AllQuiet fd c entries q h.1)

pub same_goodbyes : (n : ℕ) → ltb n n ≡ false
same_goodbyes n = ground arith

-- A quiet connection that stays as it is.
pub after_change-Kept :
    (n fd : ℕ) (c : TcpConnection) (s : TcpServer)
    → IsQuiet c
    → Kept n s
    → Kept n (after_change fd c s c)
unfolding after_change NoRemoval
after_change-Kept n fd c s q k = record {
  quiet = replace-AllQuiet fd c s.connections q k.quiet;
  stays = NoRemoval-append s.posted _ k.stays (
      subst (λ b. NoRemoval (if b then remove_it fd ∷ [] else []))
        (sym (same_goodbyes (goodbyes c.requests))) tt);
  many = omega (arith, k.many, length-replace fd c s.connections);
}

pub change-Kept :
    (n : ℕ) (s : TcpServer) (fd : ℕ) (f : TcpConnection → Option TcpConnection)
    → ((c : TcpConnection) → IsQuiet c → f c ≡ some c)
    → Kept n s
    → Result n (change s fd f)
unfolding change Result QuietOption
change-Kept n s fd f same k =
    by_found (find fd s.connections) (find-AllQuiet fd s.connections k.quiet)
  where
    by_found :
        (o : Option TcpConnection)
        → QuietOption o
        → Result n (o >>= λ c. (f c >>= λ c'. some (after_change fd c s c')))
    by_found none q = tt
    by_found (some c) q =
        subst (λ r. Result n (r >>= λ c'. some (after_change fd c s c'))) (sym (same c q))
          (after_change-Kept n fd c s q k)

-- What the loop of `stop` leaves of quiet connections.
unfoldable pub Disconnected : ℕ → Option (Connections × List Event) → Type 0
Disconnected n none = Unit
Disconnected n (some out) = AllQuiet out.0 × NoRemoval out.1 × (length out.0 ≡ n)

pub disconnect-IsQuiet : (c : TcpConnection) → IsQuiet c → QuietOption (disconnect c)
unfolding disconnect lock ask QuietOption
disconnect-IsQuiet c q = by_lock (locking c.held)
  where
    by_lock :
        (o : Option Bool)
        → QuietOption
            ((o >> some (record c { held = true })) >>= λ c'. some (unlock (ask c' close_later)))
    by_lock none = tt
    by_lock (some b) = record { idle = q.idle; free = refl }

pub disconnect_all-Disconnected :
    (entries : Connections)
    → AllQuiet entries
    → Disconnected (length entries) (disconnect_all entries)
unfolding disconnect_all AllQuiet Disconnected NoRemoval QuietOption
disconnect_all-Disconnected [] h = (tt, tt, refl)
disconnect_all-Disconnected ((fd, c) ∷ entries) h =
    both (disconnect c) (disconnect-IsQuiet c h.0) (disconnect_all entries)
      (disconnect_all-Disconnected entries h.1)
  where
    both :
        (o : Option TcpConnection)
        → QuietOption o
        → (r : Option (Connections × List Event)) → Disconnected (length entries) r
        → Disconnected
            (suc (length entries))
            (o >>= λ c'. (r >>= λ out. some ((fd, c') ∷ out.0, close_it fd ∷ out.1)))
    both none q r k = tt
    both (some c') q none k = tt
    both (some c') q (some out) k = ((q, k.0), k.1, ap suc k.2)
