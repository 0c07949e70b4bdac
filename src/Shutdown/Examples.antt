-- ===== src/Shutdown/Examples.antt =====
-- A server with two queued tasks, one of which has expired, and one connection.
use juggernaut_server.Manager.{close_all}
use juggernaut_server.Base.{ℕ, if◌then◌else◌, ◌≡◌, refl, true, false, [], ◌∷◌, none, arith}
use juggernaut_server.Tasks.{running, terminated, call, has_expired}
use juggernaut_server.Scheduler.{contains}
use juggernaut_server.Startup.{normal, shutdown}
use juggernaut_server.Shutdown.{System, change_state, run_rounds, stop_services}
use juggernaut_server.Shutdown.Drain.{shutdown-drains}

abbrev busy : System
busy = record {
  game_state = normal;
  dispatcher = record {
    thread_state = running;
    task_list =
        record { expiration = 5; work = call 1 } ∷ record { expiration = 0; work = call 2 } ∷ [];
    dispatcher_cycle = 0;
  };
  scheduler = record { thread_state = running; last_event_id = 0; event_list = []; event_ids = [] };
  service_manager = none;
  connections = record { connections = 4 ∷ []; sockets = λ i. true };
  called = [];
  console = [];
}

-- The queued task closes the socket of the connection.
abbrev closing_task : ℕ → System → System
closing_task f s = record s { connections = close_all s.connections }

shutdown-drains_example :
    let v = run_rounds (λ port. false) closing_task (9 ∷ 9 ∷ []) (change_state shutdown busy) in
    let s' = run_rounds (λ port. false) closing_task (9 ∷ 9 ∷ []) v in
    (s'.dispatcher.thread_state ≡ terminated)
    × (s'.dispatcher.task_list ≡ [])
    × (s'.called ≡ 2 ∷ 0 ∷ [])
    × (s'.scheduler.thread_state ≡ terminated)
    × (s'.scheduler.event_list ≡ [])
    × (s'.service_manager ≡ stop_services (λ port. false) v.service_manager)
    × (s'.connections.connections ≡ [])
    × (s'.connections.sockets 4
        ≡ (if contains 4 v.connections.connections then false else v.connections.sockets 4))
unfolding has_expired
shutdown-drains_example =
    shutdown-drains (λ port. false) closing_task busy (9 ∷ 9 ∷ []) 9 9 4 (λ e. cc) refl
      (λ f v. (refl, refl)) (omega arith) refl
