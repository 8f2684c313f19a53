-- ===== src/TcpClient/Tests.antt =====
-- A client that connects and stops.
use lp_net.Prelude.{ℕ, ◌≡◌, refl, List, Option, none, some, Bool, true, ◌>>=◌, replicate}
use lp_net.RingBuffer.{locking}
use lp_net.TcpConnection.{disconnect, lock, ask}
use lp_net.TcpConnection
use lp_net.Connector.{is_positive, is_valid, close_socket, answered, connect, close}
use lp_net.Connector
use lp_net.TcpClient.{TcpClient, init, latest, on_connect, took, start, stop}

abbrev zeros : ℕ → List ℕ
zeros n = replicate n 0

abbrev sock : List ℕ → Option ℕ
sock bytes = none

abbrev accepts : Option ℕ → ℕ → ℕ → Option ℕ
accepts fd address n = some 0

-- What `stop` returns, without the client.
abbrev result : Option (Bool × TcpClient) → Option Bool
result o = o >>= λ out. some out.0

-- A client that has connected stops, and stops only once.
stops :
    result (stop zeros sock accepts (λ fd. true) (start zeros sock accepts (init (some 4)) 9).1)
    ≡ some true
unfolding stop start took init connect Connector.init is_positive answered latest on_connect
    disconnect lock locking ask TcpConnection.init close is_valid close_socket
stops = refl
