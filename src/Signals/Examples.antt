-- ===== src/Signals/Examples.antt =====
-- A server at rest that SIGTERM and SIGINT reach.
use juggernaut_server.Base.{Bool, some, ℕ, ◌≡◌, refl, true, List, false, [], ◌∷◌, ◌++◌, none}
use juggernaut_server.Tasks.{running}
use juggernaut_server.Startup.{normal}
use juggernaut_server.Shutdown.{System, next_round}
use juggernaut_server.Signals.{
  SignalWorld, Signal, run_handler, handler, sigint, sigterm, on_signal, is_registered,
}
use juggernaut_server.Signals.Handling.{here, arrives, runs, serving, at_start, SignalReach-Handles}

abbrev idle : System
idle = record {
  game_state = normal;
  dispatcher = record { thread_state = running; task_list = []; dispatcher_cycle = 0 };
  scheduler = record { thread_state = running; last_event_id = 0; event_list = []; event_ids = [] };
  service_manager = none;
  connections = record { connections = 4 ∷ []; sockets = λ i. true };
  called = [];
  console = [];
}

abbrev no_port : ℕ → Bool
no_port port = false

abbrev after_sigterm : SignalWorld
after_sigterm =
    let w = on_signal (some sigterm) (at_start no_port idle 0) in
    record w { system = next_round no_port run_handler 7 w.system }

SignalReach-Handles_example :
    (ran queued : List Signal) × (cycle : ℕ) × ((on_signal (some sigint) after_sigterm).system
      ≡ serving idle ran queued cycle)
    × (ran ++ queued ≡ sigterm ∷ sigint ∷ [])
unfolding is_registered on_signal handler
SignalReach-Handles_example =
    SignalReach-Handles no_port idle 0 (sigterm ∷ sigint ∷ [])
      (on_signal (some sigint) after_sigterm)
      (arrives (runs (arrives here sigterm refl refl) 7) sigint refl refl)
