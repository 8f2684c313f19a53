-- ===== src/TcpServer/Tests.antt =====
-- A server with one connection.
use lp_net.Prelude.{ℕ, ◌≡◌, refl, List, [], ◌∷◌, Option, none, some, true, false, replicate}
use lp_net.RingBuffer.{locking}
use lp_net.TcpConnection.{TcpConnection, update_channel, close_later, lock, ask, disconnect, close}
use lp_net.TcpConnection
use lp_net.TcpServer.{
  close_it, TcpServer, init, find, emplace, replace, is_empty, start, add_connection, goodbyes,
  after_change, disconnect_all, stop, on_new_connection, run_event, run_first, starts, connects,
  stops, runs_event, step, step_all,
}
use lp_net.TcpServer.Stop.{stop_waits_forever}

abbrev zeros : ℕ → List ℕ
zeros n = replicate n 0

abbrev sock : List ℕ → Option ℕ
sock bytes = none

abbrev fresh : TcpConnection
fresh = record (TcpConnection.init zeros sock 5 none false false) { has_disconnect_cb = true }

abbrev told : TcpConnection
told = record fresh { requests = update_channel 5 ∷ close_later ∷ [] }

-- The server after `stop` has told the connection to disconnect.
abbrev stopping : TcpServer
stopping = record {
  running = false;
  held = false;
  listening = false;
  connections = (5, told) ∷ [];
  posted = close_it 5 ∷ [];
}

abbrev waiting : TcpServer
waiting = record stopping { posted = [] }

stopped : step_all zeros sock (init false) (starts true ∷ connects 5 ∷ stops ∷ []) ≡ some stopping
unfolding step_all step init start on_new_connection add_connection emplace stop disconnect_all
    disconnect lock locking ask TcpConnection.init
stopped = refl

waits : step_all zeros sock stopping (runs_event ∷ []) ≡ some waiting
unfolding step_all step run_first run_event find after_change close TcpConnection.init goodbyes
    replace
waits = refl

stop_waits_forever_example : is_empty waiting.connections ≡ false
unfolding is_empty
stop_waits_forever_example =
    stop_waits_forever zeros sock false (starts true ∷ connects 5 ∷ stops ∷ []) (runs_event ∷ [])
      stopping waiting stopped refl waits
