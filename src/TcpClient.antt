-- ===== src/TcpClient.antt =====
-- net/tcp/TcpClient.h and TcpClient.cpp: a client over its connector, with at most one connection.
mod Tests
use lp_net.Prelude.{
  ℕ, List, [], ◌∷◌, Option, none, some, Bool, true, false, not, if◌then◌else◌, ◌>>=◌, ◌≡◌, refl, ap,
  ◌∙◌,
}
use lp_net.TcpConnection.{TcpConnection, disconnect}
use lp_net.TcpConnection
use lp_net.Connector.{Connector, is_positive, answered, connect, fire, close}
use lp_net.Connector

pub record TcpClient : Type 0 where
  pub running : Bool
  pub connector : Connector
  pub conn : Option TcpConnection

-- `fd` is the descriptor of the connector's socket; the client sets a disconnect callback.
unfoldable pub init : Option ℕ → TcpClient
init fd = record { running = false; connector = Connector.init fd true; conn = none }

-- The argument of the last call of the connect callback.
unfoldable pub latest : List ℕ → Option ℕ
latest [] = none
latest (fd ∷ []) = some fd
latest (fd ∷ next ∷ fds) = latest (next ∷ fds)

module _ (new_array : ℕ → List ℕ) (sock : List ℕ → Option ℕ)
    (dial : Option ℕ → ℕ → ℕ → Option ℕ) where
  unfoldable pub on_connect : ℕ → TcpConnection
  on_connect fd = TcpConnection.init new_array sock fd none false false

  -- The client after its connector has tried; the connect callback replaces the connection.
  unfoldable pub took : TcpClient → Bool × Connector → TcpClient
  took c (false, k) = record c { connector = k }
  took c (true, k) = record c {
    connector = k;
    conn = latest k.connected >>= λ fd. some (on_connect fd);
  }

  unfoldable pub start : TcpClient → ℕ → Bool × TcpClient
  start c address =
      if c.running
      then (false, c)
      else (true, record (took c (connect dial c.connector address)) { running = true })

  -- conn_->disconnect() follows a null pointer where there is no connection.
  unfoldable pub stop : (ℕ → Bool) → TcpClient → Option (Bool × TcpClient)
  stop closes c =
      if not c.running
      then some (false, c)
      else (c.conn >>= λ conn.
          (disconnect conn >>= λ conn'. some (
            true,
            record c { conn = some conn'; connector = close closes c.connector; running = false },
          )))

  -- A client whose first attempt is refused, and that is stopped before a later one succeeds, follows a null pointer.
  pub start-stop :
      (closes : ℕ → Bool) (fd : Option ℕ) (address : ℕ)
      → dial fd address 0 ≡ none
      → stop closes (start (init fd) address).1 ≡ none
  unfolding stop start took init connect Connector.init is_positive answered
  start-stop closes fd address refused =
      ap
        (λ o.
          stop closes
            (record (took (init fd)
              (answered (record (Connector.init fd true) { attempts = 1 }) o)) { running = true }))
        refused
