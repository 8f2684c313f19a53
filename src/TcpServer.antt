-- ===== src/TcpServer.antt =====
-- net/tcp/TcpServer.h and TcpServer.cpp: the table of connections, and the events that the server and
-- its connections give to the scheduler, as steps of the server's state. The acceptor is a flag: whether it listens.
pub mod Quiet
pub mod Stop
mod Tests
use lp_net.Prelude.{
  ℕ, suc, List, [], ◌∷◌, ◌++◌, Option, none, some, Bool, true, false, not, ltb, ◌==◌, if◌then◌else◌,
  ◌>>=◌, ◌>>◌,
}
use lp_net.RingBuffer.{locking}
use lp_net.Buffer.{Buffer}
use lp_net.TcpConnection.{Request, on_disconnected, Reply, TcpConnection, disconnect, close}
use lp_net.TcpConnection
use lp_net.TcpConnection.Idle.{Happening, happen}

-- What waits in the scheduler: `close` of a connection that was told to disconnect, and `removeConnection`.
pub data Event : Type 0 where
  close_it : ℕ → Event
  remove_it : ℕ → Event

abbrev pub Connections : Type 0
Connections = List (ℕ × TcpConnection)

pub record TcpServer : Type 0 where
  pub running : Bool
  pub held : Bool
  pub listening : Bool
  pub connections : Connections
  pub posted : List Event

-- The constructor gives `running_` no value: `running` is what it happens to hold.
unfoldable pub init : Bool → TcpServer
init running = record {
  running = running;
  held = false;
  listening = false;
  connections = [];
  posted = [];
}

unfoldable pub find : ℕ → Connections → Option TcpConnection
find fd [] = none
find fd (entry ∷ rest) = if entry.0 == fd then some entry.1 else find fd rest

-- connections_.emplace(fd, conn): a key that is there keeps its connection.
unfoldable pub emplace : ℕ → TcpConnection → Connections → Connections
emplace fd c [] = (fd, c) ∷ []
emplace fd c (entry ∷ rest) = if entry.0 == fd then entry ∷ rest else entry ∷ emplace fd c rest

unfoldable pub erase : ℕ → Connections → Connections
erase fd [] = []
erase fd (entry ∷ rest) = if entry.0 == fd then rest else entry ∷ erase fd rest

-- The connection of a key after it has changed.
unfoldable pub replace : ℕ → TcpConnection → Connections → Connections
replace fd c [] = []
replace fd c (entry ∷ rest) = if entry.0 == fd then (fd, c) ∷ rest else entry ∷ replace fd c rest

unfoldable pub is_empty : Connections → Bool
is_empty [] = true
is_empty (entry ∷ rest) = false

-- start(): `listens` says whether `Acceptor::listen` returns instead of throwing.
unfoldable pub start : Bool → TcpServer → Option (Bool × TcpServer)
start listens s =
    if s.running
    then some (false, s)
    else (if listens then some (true, record s { listening = true; running = true }) else none)

unfoldable pub add_connection : TcpServer → ℕ → TcpConnection → Option TcpServer
add_connection s fd c =
    locking s.held >> some (record s { connections = emplace fd c s.connections })

unfoldable pub remove_connection : TcpServer → ℕ → Option TcpServer
remove_connection s fd = locking s.held >> some (record s { connections = erase fd s.connections })

-- How often a connection called its disconnect callback.
unfoldable pub goodbyes : List Request → ℕ
goodbyes [] = 0
goodbyes (on_disconnected ∷ rs) = suc (goodbyes rs)
goodbyes (r ∷ rs) = goodbyes rs

-- The callback that the server gives to a connection: it posts the removal.
unfoldable pub after_change : ℕ → TcpConnection → TcpServer → TcpConnection → TcpServer
after_change fd c s c' = record s {
  connections = replace fd c' s.connections;
  posted =
      s.posted
      ++ (if ltb (goodbyes c.requests) (goodbyes c'.requests) then remove_it fd ∷ [] else []);
}

-- A connection of the table changes.
unfoldable pub change : TcpServer → ℕ → (TcpConnection → Option TcpConnection) → Option TcpServer
change s fd f = find fd s.connections >>= λ c. (f c >>= λ c'. some (after_change fd c s c'))

-- The loop of `stop`: each connection is told to disconnect, which posts its `close`.
unfoldable pub disconnect_all : Connections → Option (Connections × List Event)
disconnect_all [] = some ([], [])
disconnect_all ((fd, c) ∷ rest) = do
  c' ← disconnect c
  (rest', events) ← disconnect_all rest
  some ((fd, c') ∷ rest', close_it fd ∷ events)

-- `stop` up to its last loop, which waits until `connections_` is empty.
unfoldable pub stop : TcpServer → Option (Bool × TcpServer)
stop s =
    if not s.running
    then some (false, s)
    else (locking s.held
        >> (disconnect_all s.connections >>= λ out. some (
          true,
          record s {
            connections = out.0;
            posted = s.posted ++ out.1;
            listening = false;
            running = false;
          },
        )))

-- What happens to a server.
pub data Step : Type 0 where
  starts : Bool → Step
  connects : ℕ → Step
  stops : Step
  runs_event : Step
  happens : ℕ → Happening → Step

module _ (new_array : ℕ → List ℕ) (sock : List ℕ → Option ℕ) where
  -- The callback of the acceptor; the disconnect callback is set after the connection is in the table.
  unfoldable pub on_new_connection : TcpServer → ℕ → Option TcpServer
  on_new_connection s fd =
      add_connection s fd (record (TcpConnection.init new_array sock fd none false false) {
        has_disconnect_cb = true;
      })

  -- A connection that is erased has closed before, so that its `close` does nothing more.
  unfoldable pub run_event : TcpServer → Event → Option TcpServer
  run_event s (close_it fd) = elim (find fd s.connections) [
    | none ↦ some s
    | some c ↦ some (after_change fd c s (close c))
  ]
  run_event s (remove_it fd) = remove_connection s fd

  unfoldable pub run_first : TcpServer → List Event → Option TcpServer
  run_first s [] = some s
  run_first s (e ∷ es) = run_event (record s { posted = es }) e

  unfoldable pub step : TcpServer → Step → Option TcpServer
  step s (starts listens) = start listens s >>= λ out. some out.1
  step s (connects fd) = on_new_connection s fd
  step s stops = stop s >>= λ out. some out.1
  step s runs_event = run_first s s.posted
  step s (happens fd h) = change s fd (λ c. happen new_array sock c h)

  unfoldable pub step_all : TcpServer → List Step → Option TcpServer
  step_all s [] = some s
  step_all s (x ∷ xs) = step s x >>= λ s'. step_all s' xs
