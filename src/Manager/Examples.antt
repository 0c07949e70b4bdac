-- ===== src/Manager/Examples.antt =====
-- A manager with two ports, of which one listens.
use juggernaut_server.Base.{◌≡◌, refl, true, false, [], ◌∷◌}
use juggernaut_server.Server.{listening, new_port, Acceptors}
use juggernaut_server.Manager.{ServiceManager, stop_manager, stop_ports}
use juggernaut_server.Manager.Closing.{closings, open_ports, stop_manager-closes}

abbrev two_ports : Acceptors
two_ports = (7171, record new_port { acceptor = listening }) ∷ (7172, new_port) ∷ []

abbrev online : ServiceManager
online = record {
  acceptors = two_ports;
  running = true;
  posted = [];
  death_timer = false;
  io_stopped = false;
}

stop_manager-closes_example :
    let m' = stop_manager (λ port. false) online in
    (closings (stop_ports m'.posted).0 ≡ 1)
    × (open_ports (stop_ports m'.posted).1 ≡ 0)
    × (m'.acceptors ≡ [])
    × (m'.death_timer ≡ true)
    × (stop_manager (λ port. false) m' ≡ m')
stop_manager-closes_example =
    stop_manager-closes (λ port. false) online refl refl (refl, (refl, tt))
