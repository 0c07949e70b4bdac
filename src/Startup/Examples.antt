-- ===== src/Startup/Examples.antt =====
-- The start of the server on concrete answers.
use juggernaut_server.Base.{refl, true, false, []}
use juggernaut_server.Rsa.{loaded}
use juggernaut_server.Server.{open_at_bind}
use juggernaut_server.Startup.{Outcomes, Startup, startup, usable, main_loader}
use juggernaut_server.Startup.Loading.{main_loader-Ends}
use juggernaut_server.Startup.Paths.{Ends}

-- The port of the login protocol is in use.
abbrev port_in_use : Outcomes
port_in_use = record {
  config_loaded = true;
  rsa_configured = true;
  pem = loaded;
  connected = true;
  set_up = true;
  optimize_configured = false;
  login_port = 7171;
  throws = open_at_bind;
  exceptions = λ step. false;
}

abbrev at_first : Startup
at_first = record { game_state = startup; acceptors = []; manager_set = false }

main_loader-Ends_example : Ends true port_in_use (main_loader port_in_use at_first)
unfolding usable
main_loader-Ends_example =
    main_loader-Ends port_in_use at_first (λ step. refl) (refl, refl, λ e. cc)
