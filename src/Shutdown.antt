-- ===== src/Shutdown.antt =====
-- The end of the server: `Game::shutdown` of source/game.cpp, a task of the dispatcher that
-- `Game::setGameState` adds, with what it does to the scheduler, the dispatcher, the services and the
-- connections. The tasks' calls are numbers; `effect` is what the calls other than `Game::shutdown` do to
-- the system. Each call is noted.
use juggernaut_server.Base.{
  ℕ, Bool, true, false, List, [], ◌∷◌, ◌++◌, Option, none, some, if◌then◌else◌, ◌==◌,
}
use juggernaut_server.Tasks.{
  ThreadState, running, closing, terminated, Task, Work, call, end_thread, Dispatcher, has_expired,
  add_task, shutdown as shut_dispatcher, stop, take_first,
}
use juggernaut_server.Scheduler.{Scheduler, shut_down}
use juggernaut_server.Manager.{ServiceManager, ConnectionManager, stop_manager, close_all}
use juggernaut_server.Startup.{
  GameState, GameCall, add_shutdown_task, stop_scheduler, stop_dispatcher, set_game_state,
}
pub mod Drain
mod Examples

pub record System : Type 0 where
  pub game_state : GameState
  pub dispatcher : Dispatcher
  pub scheduler : Scheduler
  pub service_manager : Option ServiceManager
  pub connections : ConnectionManager
  pub called : List ℕ
  pub console : List (List ℕ)

-- The number of `Game::shutdown`.
abbrev pub shutdown_call : ℕ
shutdown_call = 0

-- `createTask` without an expiration.
abbrev pub shutdown_task : Task
shutdown_task = record { expiration = 0; work = call shutdown_call }

-- The calls of `setGameState`.
unfoldable pub perform : GameCall → System → System
unfolding add_task stop
perform add_shutdown_task s = record s {
  dispatcher = (add_task shutdown_task false s.dispatcher).1;
}
perform stop_scheduler s =
    let d : Scheduler = record (s.scheduler) { thread_state = closing } in
    record s { scheduler = d }
perform stop_dispatcher s = record s { dispatcher = stop s.dispatcher }

unfoldable pub perform_all : List GameCall → System → System
unfolding perform
perform_all [] s = s
perform_all (c ∷ calls) s = perform_all calls (perform c s)

unfoldable pub change_state : GameState → System → System
unfolding set_game_state perform_all
change_state new_state s =
    let (calls, state) = set_game_state s.game_state new_state in
    perform_all calls (record s { game_state = state })

module _ (throws : ℕ → Bool) where
  unfoldable pub stop_services : Option ServiceManager → Option ServiceManager
  unfolding stop_manager
  stop_services none = none
  stop_services (some m) = some (stop_manager throws m)

  -- `Game::shutdown`.
  unfoldable pub game_shutdown : System → System
  unfolding shut_down shut_dispatcher stop_services close_all
  game_shutdown s = record s {
    scheduler = shut_down s.scheduler;
    dispatcher = shut_dispatcher s.dispatcher;
    service_manager = stop_services s.service_manager;
    connections = close_all s.connections;
  }

  module _ (effect : ℕ → System → System) where
    -- What a task does to the system.
    unfoldable pub run_work : Work → System → System
    unfolding game_shutdown
    run_work (call f) s =
        let s' : System = record s { called = s.called ++ f ∷ [] } in
        if f == shutdown_call then game_shutdown s' else effect f s'
    run_work end_thread s = s

    unfoldable pub run_unexpired : ℕ → Task → System → System
    unfolding run_work has_expired
    run_unexpired now task s = if has_expired now task then s else run_work task.work s

    -- A round of the dispatcher's thread; it waits when there is no task.
    unfoldable pub run_round : ℕ → List Task → System → System
    unfolding run_unexpired take_first
    run_round now [] s = s
    run_round now (task ∷ tasks) s =
        run_unexpired now task
          (record s { dispatcher = (take_first now (task ∷ tasks) s.dispatcher).1 })

    unfoldable pub next_round : ℕ → System → System
    unfolding run_round
    next_round now s = elim s.dispatcher.thread_state [
      | terminated ↦ s
      | _ ↦ run_round now s.dispatcher.task_list s
    ]

    -- Rounds, with the times at which they come.
    unfoldable pub run_rounds : List ℕ → System → System
    unfolding next_round
    run_rounds [] s = s
    run_rounds (now ∷ times) s = run_rounds times (next_round now s)
