-- ===== src/Server/Examples.antt =====
-- The theorems about service ports at concrete ports.
use juggernaut_server.Base.{refl, true, false, List, [], ◌∷◌, arith}
use juggernaut_server.Server.{
  Service, ServicePort, listening, open_nowhere, open_at_bind, other_error, open_port, on_accept,
  close_port,
}
use juggernaut_server.Server.Sharing.{AreShared, Request, add_requests, add_requests-AreShared}
use juggernaut_server.Server.World.{
  PortWorld, next_world, PortReach, unmoved, moved, answered, reopened, Serving,
}
use juggernaut_server.Server.Accepting.{PortReach-Serving}

abbrev login : Service
login = record { single_socket = false; checksummed = true; protocol_identifier = 1 }

abbrev game : Service
game = record { single_socket = true; checksummed = true; protocol_identifier = 0 }

abbrev status : Service
status = record { single_socket = false; checksummed = false; protocol_identifier = 255 }

abbrev requests : List Request
requests =
    record { throws = open_nowhere; port = 7171; service = login }
    ∷ record { throws = open_at_bind; port = 7172; service = game }
    ∷ record { throws = open_nowhere; port = 7171; service = game }
    ∷ record { throws = open_nowhere; port = 7171; service = status }
    ∷ []

add_requests-AreShared_example : AreShared (add_requests requests [])
add_requests-AreShared_example = add_requests-AreShared requests [] tt

abbrev serving_port : ServicePort
serving_port = record {
  acceptor = listening;
  services = login ∷ [];
  server_port = 7171;
  pending_start = false;
}

abbrev at_first : PortWorld
at_first = record { port = serving_port; live = 1; old = 0; events = 0 }

-- An error of the acceptor, and the event that opens the port again.
abbrev after_error : PortWorld
after_error = next_world 0 0 0 (on_accept other_error 0 serving_port)

abbrev after_reopening : PortWorld
after_reopening = next_world 0 0 0 (open_port open_nowhere 7171 after_error.port)

recovery : PortReach at_first after_reopening
unfolding on_accept close_port
recovery =
    moved (moved unmoved (answered other_error 0 0 refl (λ e. absurd (cc))))
      (reopened open_nowhere 7171 0 refl)

PortReach-Serving_example : Serving after_reopening
PortReach-Serving_example =
    PortReach-Serving at_first after_reopening
      (record { served = λ e. absurd (cc); pending = refl; waiting = λ h h'. omega arith }) recovery
