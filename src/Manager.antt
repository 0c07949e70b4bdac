-- ===== src/Manager.antt =====
-- The rest of the `ServiceManager` of source/server.h and source/server.cpp, and the
-- `ConnectionManager` of source/connection.h and source/connection.cpp. A connection is a number.
use juggernaut_server.Base.{
  ℕ, Bool, true, false, not, List, [], ◌∷◌, ◌++◌, Option, none, some, if◌then◌else◌, ◌==◌,
}
use juggernaut_server.Server.{ServicePort, PortAction, Acceptors, close_port}
use juggernaut_server.Scheduler.{insert, erase}
pub mod Closing
mod Examples

-- `posted` is the ports whose `onStopServer` the service has still to run.
pub record ServiceManager : Type 0 where
  pub acceptors : Acceptors
  pub running : Bool
  pub posted : List ServicePort
  pub death_timer : Bool
  pub io_stopped : Bool

-- `run`, up to the service's loop; `none` is the failed assertion.
unfoldable pub run_manager : ServiceManager → Option ServiceManager
run_manager m = if m.running then none else some (record m { running = true })

-- The loop of `stop`, where `throws` says for which ports `post` throws.
unfoldable pub post_ports : (ℕ → Bool) → Acceptors → List ServicePort
post_ports throws [] = []
post_ports throws ((port, s) ∷ acceptors) =
    let rest = post_ports throws acceptors in if throws port then rest else s ∷ rest

unfoldable pub stop_manager : (ℕ → Bool) → ServiceManager → ServiceManager
unfolding post_ports
stop_manager throws m = if not m.running then m else record m {
  running = false;
  posted = m.posted ++ post_ports throws m.acceptors;
  acceptors = [];
  death_timer = true;
}

-- `die`, when the timer has come.
unfoldable pub die : ServiceManager → ServiceManager
die m = record m { io_stopped = true; death_timer = false }

-- `onStopServer` of the posted ports, in their order: the calls, and the ports.
unfoldable pub stop_ports : List ServicePort → List PortAction × List ServicePort
unfolding close_port
stop_ports [] = ([], [])
stop_ports (s ∷ ports) =
    let (calls, s') = close_port s in
    let (more, ports') = stop_ports ports in (calls ++ more, s' ∷ ports')

-- `m_connections`, and which sockets are open.
pub record ConnectionManager : Type 0 where
  pub connections : List ℕ
  pub sockets : ℕ → Bool

unfoldable pub create_connection : ℕ → ConnectionManager → ConnectionManager
unfolding insert
create_connection id m = record m { connections = insert id m.connections }

unfoldable pub release_connection : ℕ → ConnectionManager → ConnectionManager
unfolding erase
release_connection id m = record m { connections = erase id m.connections }

unfoldable pub close_one : ℕ → (ℕ → Bool) → ℕ → Bool
close_one id sockets i = if i == id then false else sockets i

-- The loop of `closeAll`; the calls of the socket do not throw, for they are given an error code.
unfoldable pub close_sockets : List ℕ → (ℕ → Bool) → ℕ → Bool
unfolding close_one
close_sockets [] sockets = sockets
close_sockets (id ∷ ids) sockets = close_sockets ids (close_one id sockets)

unfoldable pub close_all : ConnectionManager → ConnectionManager
unfolding close_sockets
close_all m = record { connections = []; sockets = close_sockets m.connections m.sockets }
