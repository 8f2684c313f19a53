-- ===== src/TcpServer/Stop.antt =====
-- The loop at the end of `stop`, which waits until no connection is left.
use mathlib.Core.Path.{subst}
use lp_net.Prelude.{
  ℕ, ◌≤◌, ◌≡◌, refl, sym, ap, ◌∙◌, arith, List, [], ◌∷◌, ◌++◌, Option, none, some, Bool, true,
  false, not, if◌then◌else◌, ◌>>=◌, ◌>>◌, length,
}
use lp_net.RingBuffer.{locking}
use lp_net.TcpConnection.{TcpConnection, ask, lock, unlock, close, close_later, disconnect}
use lp_net.TcpConnection
use lp_net.TcpConnection.Idle.{Happening, happen, happen-rest}
use lp_net.TcpServer.{
  Event, close_it, remove_it, Connections, TcpServer, init, find, is_empty, start, add_connection,
  after_change, disconnect_all, stop, on_new_connection, run_event, run_first, Step, starts,
  connects, stops, runs_event, happens, step, step_all,
}
use lp_net.TcpServer.Quiet.{
  IsQuiet, AllQuiet, NoRemoval, NoRemoval-append, Kept, Result, rest-IsQuiet, close-IsQuiet,
  QuietOption, find-AllQuiet, length-emplace, emplace-AllQuiet, after_change-Kept, change-Kept,
  Disconnected, disconnect_all-Disconnected,
}

Result-bind {ℓ} :
    {A : Type ℓ} (n : ℕ) (o : Option A) (f : A → Option TcpServer)
    → ((x : A) → Result n (f x))
    → Result n (o >>= f)
unfolding Result
Result-bind n none f h = tt
Result-bind n (some x) f h = h x

Result-then :
    (n : ℕ) (o : Option TcpServer) (f : TcpServer → Option TcpServer)
    → Result n o
    → ((s : TcpServer) → Kept n s → Result n (f s))
    → Result n (o >>= f)
unfolding Result
Result-then n none f r h = tt
Result-then n (some s) f r h = h s r

start-Kept :
    (n : ℕ) (listens : Bool) (s : TcpServer)
    → Kept n s
    → Result n (start listens s >>= λ out. some out.1)
unfolding start Result
start-Kept n listens s k = by_flags s.running listens
  where
    listening_one : TcpServer
    listening_one = record s { listening = true; running = true }

    out_of : Bool → Bool → Option (Bool × TcpServer)
    out_of r l = if r then some (false, s) else (if l then some (true, listening_one) else none)

    by_flags : (r l : Bool) → Result n (out_of r l >>= λ out. some out.1)
    by_flags true l = k
    by_flags false true = record { quiet = k.quiet; stays = k.stays; many = k.many }
    by_flags false false = tt

stop-Kept : (n : ℕ) (s : TcpServer) → Kept n s → Result n (stop s >>= λ out. some out.1)
unfolding stop Result Disconnected
stop-Kept n s k =
    by_flags s.running (locking s.held) (disconnect_all s.connections)
      (disconnect_all-Disconnected s.connections k.quiet)
  where
    stopped : Connections × List Event → TcpServer
    stopped out = record s {
      connections = out.0;
      posted = s.posted ++ out.1;
      listening = false;
      running = false;
    }

    out_of : Bool → Option Bool → Option (Connections × List Event) → Option (Bool × TcpServer)
    out_of r l d = if not r then some (false, s) else (l >> (d >>= λ out. some (true, stopped out)))

    by_flags :
        (r : Bool) (l : Option Bool) (d : Option (Connections × List Event))
        → Disconnected (length s.connections) d
        → Result n (out_of r l d >>= λ out. some out.1)
    by_flags false l d q = k
    by_flags true none d q = tt
    by_flags true (some b) none q = tt
    by_flags true (some b) (some out) q = record {
      quiet = q.0;
      stays = NoRemoval-append s.posted out.1 k.stays q.1;
      many = omega (arith, k.many, q.2);
    }

module _ (new_array : ℕ → List ℕ) (sock : List ℕ → Option ℕ) where
  connect-Kept :
      (n : ℕ) (s : TcpServer) (fd : ℕ) → Kept n s → Result n (on_new_connection new_array sock s fd)
  unfolding on_new_connection add_connection Result TcpConnection.init
  connect-Kept n s fd k = Result-bind n (locking s.held) _ (λ b. record {
    quiet = emplace-AllQuiet fd _ s.connections record { idle = refl; free = refl } k.quiet;
    stays = k.stays;
    many = omega (
      arith,
      k.many,
      length-emplace fd
          (record (TcpConnection.init new_array sock fd none false false) {
            has_disconnect_cb = true;
          })
          s.connections,
    );
  })

  run_event-Kept :
      (n : ℕ) (s : TcpServer) (e : Event)
      → NoRemoval (e ∷ [])
      → Kept n s
      → Result n (run_event new_array sock s e)
  unfolding run_event Result NoRemoval QuietOption
  run_event-Kept n s (close_it fd) none_left k =
      by_found (find fd s.connections) (find-AllQuiet fd s.connections k.quiet)
    where
      after : Option TcpConnection → Option TcpServer
      after = elim [ none ↦ some s | some c ↦ some (after_change fd c s (close c)) ]

      by_found : (o : Option TcpConnection) → QuietOption o → Result n (after o)
      by_found none q = k
      by_found (some c) q =
          subst (λ d. Kept n (after_change fd c s d)) (sym (close-IsQuiet c q))
            (after_change-Kept n fd c s q k)
  run_event-Kept n s (remove_it fd) none_left k = absurd none_left

  run_first-Kept :
      (n : ℕ) (s : TcpServer) (es : List Event)
      → NoRemoval es
      → Kept n s
      → Result n (run_first new_array sock s es)
  unfolding run_first NoRemoval Result
  run_first-Kept n s [] none_left k = k
  run_first-Kept n s (close_it fd ∷ es) none_left k =
      run_event-Kept n (record s { posted = es }) (close_it fd) tt
        record { quiet = k.quiet; stays = none_left; many = k.many }
  run_first-Kept n s (remove_it fd ∷ es) none_left k = absurd none_left

  step-Kept : (n : ℕ) (s : TcpServer) (x : Step) → Kept n s → Result n (step new_array sock s x)
  unfolding step
  step-Kept n s (starts listens) k = start-Kept n listens s k
  step-Kept n s (connects fd) k = connect-Kept n s fd k
  step-Kept n s stops k = stop-Kept n s k
  step-Kept n s runs_event k = run_first-Kept n s s.posted k.stays k
  step-Kept n s (happens fd h) k =
      change-Kept n s fd (λ c. happen new_array sock c h) (happen-IsQuiet h) k
    where
      happen-IsQuiet :
          (h : Happening) (c : TcpConnection) → IsQuiet c → happen new_array sock c h ≡ some c
      happen-IsQuiet h c q =
          ap (λ d. happen new_array sock d h) (sym (rest-IsQuiet c q))
          ∙ happen-rest new_array sock c h
          ∙ ap some (rest-IsQuiet c q)

  step_all-Kept :
      (n : ℕ) (xs : List Step) (s : TcpServer) → Kept n s → Result n (step_all new_array sock s xs)
  unfolding step_all Result
  step_all-Kept n [] s k = k
  step_all-Kept n (x ∷ xs) s k =
      Result-then n (step new_array sock s x) (λ s'. step_all new_array sock s' xs)
        (step-Kept n s x k) (λ s'. step_all-Kept n xs s')

  -- After any steps of a server from its start on, whatever `running_` was then, the loop at the end of `stop` waits in vain if there is a
  -- connection: whatever steps follow (events of the scheduler, events of connections, calls of
  -- `start` and `stop`), a connection is left.
  pub stop_waits_forever :
      (running : Bool) (xs ys : List Step) (s s' : TcpServer)
      → step_all new_array sock (init running) xs ≡ some s
      → is_empty s.connections ≡ false
      → step_all new_array sock s ys ≡ some s'
      → is_empty s'.connections ≡ false
  unfolding init Result is_empty AllQuiet NoRemoval
  stop_waits_forever running xs ys s s' first left later = not_empty s'.connections (kept.many)
    where
      start_Kept : Kept 0 s
      start_Kept =
          subst (Result 0) first (
            step_all-Kept 0 xs (init running) record { quiet = tt; stays = tt; many = omega arith })

      one : (l : Connections) → is_empty l ≡ false → 1 ≤ length l
      one [] e = absurd (subst (elim [ true ↦ Unit | false ↦ ⊥ ]) e tt)
      one (x ∷ l) e = omega arith

      kept : Kept 1 s'
      kept = subst (Result 1) later (
          step_all-Kept 1 ys s record {
            quiet = start_Kept.quiet;
            stays = start_Kept.stays;
            many = one s.connections left;
          })

      not_empty : (l : Connections) → 1 ≤ length l → is_empty l ≡ false
      not_empty [] h = absurd (omega (arith, h))
      not_empty (x ∷ l) h = refl
