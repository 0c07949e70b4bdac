-- ===== src/Startup.antt =====
-- `Game` of source/game.h and source/game.cpp, and the start of the server in source/main.cpp: the
-- task `mainLoader` of the dispatcher, and `main`, which waits for it. What the calls answer is an
-- argument.
use juggernaut_server.Base.{ℕ, Bool, true, false, List, [], ◌∷◌, ◌++◌, map, ◌==◌, if◌then◌else◌}
use juggernaut_server.Rsa.{
  PemResult, loaded, without_key, missing_file, missing_header, missing_footer, bad_key,
  out_of_range,
}
use juggernaut_server.Server.{Acceptors, OpenThrows, Service, add_protocol}
pub mod Paths
pub mod Loading
pub mod Waiting
mod Examples

pub data GameState : Type 0 where
  startup init normal closed shutdown closing maintain : GameState

unfoldable pub state_number : GameState → ℕ
state_number startup = 0
state_number init = 1
state_number normal = 2
state_number closed = 3
state_number shutdown = 4
state_number closing = 5
state_number maintain = 6

-- The calls of the dispatcher and the scheduler that the game makes.
pub data GameCall : Type 0 where
  add_shutdown_task stop_scheduler stop_dispatcher : GameCall

unfoldable pub state_calls : GameState → List GameCall
state_calls shutdown = add_shutdown_task ∷ stop_scheduler ∷ stop_dispatcher ∷ []
state_calls state = []

-- `setGameState` from the old state to a new one.
unfoldable pub set_game_state : GameState → GameState → List GameCall × GameState
unfolding state_number state_calls
set_game_state shutdown new_state = ([], shutdown)
set_game_state old new_state =
    if state_number old == state_number new_state
    then ([], old)
    else (state_calls new_state, new_state)

-- The calls of `mainLoader` that may throw what it does not catch, as `loadFile` does on a file that
-- is not JSON, and `getConfig` on a value of another type.
pub data LoaderStep : Type 0 where
  loading_config reading_rsa connecting checking_setup : LoaderStep
  reading_optimization optimizing reading_port : LoaderStep

-- What the calls of `mainLoader` answer: `loadPEM` ends or throws what is caught, a port is opened or
-- not, and the other calls throw or answer.
pub record Outcomes : Type 0 where
  pub config_loaded : Bool
  pub rsa_configured : Bool
  pub pem : PemResult
  pub connected : Bool
  pub set_up : Bool
  pub optimize_configured : Bool
  pub login_port : ℕ
  pub throws : OpenThrows
  pub exceptions : LoaderStep → Bool

pub record Startup : Type 0 where
  pub game_state : GameState
  pub acceptors : Acceptors
  pub manager_set : Bool

pub data LoaderCall : Type 0 where
  load_config load_key connect_database check_setup start_database_tasks : LoaderCall
  optimize_tables notify_all : LoaderCall
  game_call : GameCall → LoaderCall
  uncaught : LoaderStep → LoaderCall

abbrev pub Loaded : Type 0
Loaded = List LoaderCall × Startup

abbrev pub calling : List LoaderCall → Loaded → Loaded
calling calls (more, s) = (calls ++ more, s)

-- `g_game.setGameState(...)`.
unfoldable pub enter : GameState → (Startup → Loaded) → Startup → Loaded
unfolding set_game_state
enter new_state next s =
    let (calls, state) = set_game_state s.game_state new_state in
    calling (map game_call calls) (next (record s { game_state = state }))

-- `startupErrorMessage`.
unfoldable pub startup_error_message : Startup → Loaded
startup_error_message s = (notify_all ∷ [], s)

unfoldable pub usable : PemResult → Bool
usable loaded = true
usable without_key = true
usable missing_file = false
usable missing_header = false
usable missing_footer = false
usable bad_key = false
usable out_of_range = false

abbrev pub login_service : Service
login_service = record { single_socket = false; checksummed = true; protocol_identifier = 0x01 }

unfoldable pub add_login : Outcomes → Startup → Startup
unfolding add_protocol
add_login o s = record s {
  acceptors = (add_protocol o.throws o.login_port login_service s.acceptors).1;
}

module _ (o : Outcomes) where
  -- What follows a call: an exception that is not caught leaves `mainLoader`.
  unfoldable pub unless_thrown : LoaderStep → (Startup → Loaded) → Startup → Loaded
  unless_thrown step next s = if o.exceptions step then (uncaught step ∷ [], s) else next s

  -- The end of `mainLoader`, from `g_game.start` on.
  unfoldable pub go_online : Startup → Loaded
  unfolding enter
  go_online s = enter normal (λ s'. (notify_all ∷ [], s')) (record s { manager_set = true })

  -- The part behind the tests.
  unfoldable pub initialize : Startup → Loaded
  unfolding go_online add_login unless_thrown
  initialize = enter init (λ s. unless_thrown reading_port (λ s'. go_online (add_login o s')) s)

  unfoldable pub optimize : Bool → Startup → Loaded
  unfolding initialize
  optimize false s = initialize s
  optimize true s = calling (optimize_tables ∷ []) (unless_thrown optimizing initialize s)

  unfoldable pub open_services : Startup → Loaded
  unfolding optimize
  open_services s =
      calling (start_database_tasks ∷ [])
        (unless_thrown reading_optimization (optimize o.optimize_configured) s)

  unfoldable pub after_setup : Bool → Startup → Loaded
  unfolding open_services startup_error_message
  after_setup false s = startup_error_message s
  after_setup true s = open_services s

  unfoldable pub after_connect : Bool → Startup → Loaded
  unfolding after_setup unless_thrown
  after_connect false s = startup_error_message s
  after_connect true s =
      calling (check_setup ∷ []) (unless_thrown checking_setup (after_setup o.set_up) s)

  unfoldable pub after_key : Bool → Startup → Loaded
  unfolding after_connect
  after_key false s = startup_error_message s
  after_key true s =
      calling (connect_database ∷ []) (unless_thrown connecting (after_connect o.connected) s)

  unfoldable pub read_pem : Bool → Startup → Loaded
  unfolding after_key usable
  read_pem false s = after_key true s
  read_pem true s = calling (load_key ∷ []) (after_key (usable o.pem) s)

  unfoldable pub after_config : Bool → Startup → Loaded
  unfolding read_pem
  after_config false s = startup_error_message s
  after_config true s = unless_thrown reading_rsa (read_pem o.rsa_configured) s

  unfoldable pub main_loader : Startup → Loaded
  unfolding after_config
  main_loader s =
      enter startup
        (λ s'.
          calling (load_config ∷ [])
            (unless_thrown loading_config (after_config o.config_loaded) s'))
        s

-- `ServiceManager::is_running`, and what `main` does when it was woken.
unfoldable pub is_running : Acceptors → Bool
is_running [] = false
is_running (port ∷ ports) = true

pub data MainCall : Type 0 where
  run_services shutdown_scheduler shutdown_database_tasks shutdown_dispatcher : MainCall
  join_scheduler join_database_tasks join_dispatcher : MainCall

unfoldable pub after_wait : Startup → List MainCall
unfolding is_running
after_wait s =
    (if is_running s.acceptors
      then run_services ∷ []
      else shutdown_scheduler ∷ shutdown_database_tasks ∷ shutdown_dispatcher ∷ [])
    ++ join_scheduler ∷ join_database_tasks ∷ join_dispatcher ∷ []
