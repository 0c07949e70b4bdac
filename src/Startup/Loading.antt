-- ===== src/Startup/Loading.antt =====
-- The paths of `mainLoader` of source/main.cpp.
use juggernaut_server.Base.{
  ◌≡◌, refl, ap, subst, ◌∙◌, Bool, true, false, not, ◌&&◌, ◌||◌, [], ◌∷◌, ◌==◌, if◌then◌else◌,
  arith,
}
use juggernaut_server.Server.{add_protocol, add_at}
use juggernaut_server.Startup.{
  startup, init, normal, state_calls, Outcomes, Startup, LoaderStep, loading_config, reading_rsa,
  connecting, checking_setup, reading_optimization, optimizing, reading_port, unless_thrown,
  initialize, optimize, LoaderCall, load_config, load_key, connect_database, check_setup,
  start_database_tasks, optimize_tables, notify_all, Loaded, calling, startup_error_message, usable,
  add_login, go_online, open_services, after_setup, after_connect, after_key, read_pem,
  after_config, main_loader, is_running, login_service,
}
use juggernaut_server.Startup.Paths.{
  notification, database_start, Leaves, Ends, IsFresh, succeeds, enter-Leaves, calling-Leaves,
  IsCalm, unless_thrown-Leaves,
}

-- The error path, and the paths behind each test.
stopped : (o : Outcomes) (s : Startup) → IsFresh s → Ends false o (startup_error_message s)
unfolding startup_error_message is_running
stopped o s (none_open, not_set, live) = (([], refl, refl), refl, ap is_running none_open, not_set)

add_login-running :
    (o : Outcomes) (s : Startup)
    → s.acceptors ≡ []
    → is_running (add_login o s).acceptors ≡ not (o.login_port == 0)
unfolding add_login add_protocol add_at is_running
add_login-running o s e =
    ap (λ ports. is_running (add_protocol o.throws o.login_port login_service ports).1) e
    ∙ opened (o.login_port == 0)
  where
    opened :
        (t : Bool)
        → is_running (if t then (false, []) else add_at o.throws o.login_port login_service []).1
          ≡ not t
    opened true = refl
    opened false = refl

quiet_init : state_calls init ≡ []
unfolding state_calls
quiet_init = refl

quiet_normal : state_calls normal ≡ []
unfolding state_calls
quiet_normal = refl

-- A test that is passed by a call, and one that is not.
called :
    (b : Bool) (o : Outcomes) (c : LoaderCall) (r : Loaded)
    → notification c ≡ 0
    → database_start c ≡ 0
    → Ends b o r
    → Ends b o (calling (c ∷ []) r)
called b o c r h h' ends =
    let n = if b then 1 else 0 in
    let running = b && not (o.login_port == 0) in
    subst (λ k. Leaves k running b (calling (c ∷ []) r)) (omega (arith, h'))
      (calling-Leaves n running b c r h ends)

module _ (o : Outcomes) (calm : IsCalm o) where
  followed :
      (b : Bool) (step : LoaderStep) (next : Startup → Loaded) (s : Startup)
      → Ends b o (next s)
      → Ends b o (unless_thrown o step next s)
  followed b step next s h =
      unless_thrown-Leaves (if b then 1 else 0) (b && not (o.login_port == 0)) b o step next s calm
        h

  abbrev port_left : Bool
  port_left = not (o.login_port == 0)

  initialize-Leaves : (s : Startup) → IsFresh s → Leaves 0 port_left true (initialize o s)
  unfolding initialize go_online add_login
  initialize-Leaves s (none_open, not_set, live) =
      enter-Leaves 0 port_left true init
        (λ s'. unless_thrown o reading_port (λ s''. go_online o (add_login o s'')) s') s live
        (λ e. cc) quiet_init
        (λ g live'.
          unless_thrown-Leaves 0 port_left true o reading_port (λ s'. go_online o (add_login o s'))
            (record s { game_state = g }) calm
            (enter-Leaves 0 port_left true normal (λ s'. (notify_all ∷ [], s'))
              (record (add_login o (record s { game_state = g })) { manager_set = true }) live'
              (λ e. cc) quiet_normal
              (λ g' live''. (
                ([], refl, refl),
                refl,
                add_login-running o (record s { game_state = g }) none_open,
                refl,
              ))))

  optimize-Leaves : (t : Bool) (s : Startup) → IsFresh s → Leaves 0 port_left true (optimize o t s)
  unfolding optimize
  optimize-Leaves false s h = initialize-Leaves s h
  optimize-Leaves true s h =
      calling-Leaves 0 port_left true optimize_tables (unless_thrown o optimizing (initialize o) s)
        refl
        (unless_thrown-Leaves 0 port_left true o optimizing (initialize o) s calm
          (initialize-Leaves s h))

  open_services-Ends : (s : Startup) → IsFresh s → Ends true o (open_services o s)
  unfolding open_services
  open_services-Ends s h =
      let rest = optimize o o.optimize_configured in
      calling-Leaves 0 port_left true start_database_tasks
        (unless_thrown o reading_optimization rest s) refl
        (unless_thrown-Leaves 0 port_left true o reading_optimization rest s calm
          (optimize-Leaves o.optimize_configured s h))

  after_setup-Ends : (b : Bool) (s : Startup) → IsFresh s → Ends b o (after_setup o b s)
  unfolding after_setup
  after_setup-Ends false s h = stopped o s h
  after_setup-Ends true s h = open_services-Ends s h

  after_connect-Ends :
      (b : Bool) (s : Startup) → IsFresh s → Ends (b && o.set_up) o (after_connect o b s)
  unfolding after_connect
  after_connect-Ends false s h = stopped o s h
  after_connect-Ends true s h =
      let next = after_setup o o.set_up in
      called o.set_up o check_setup (unless_thrown o checking_setup next s) refl refl
        (followed o.set_up checking_setup next s (after_setup-Ends o.set_up s h))

  after_key-Ends :
      (b : Bool) (s : Startup)
      → IsFresh s
      → Ends (b && (o.connected && o.set_up)) o (after_key o b s)
  unfolding after_key
  after_key-Ends false s h = stopped o s h
  after_key-Ends true s h =
      let good = o.connected && o.set_up in
      let next = after_connect o o.connected in
      called good o connect_database (unless_thrown o connecting next s) refl refl
        (followed good connecting next s (after_connect-Ends o.connected s h))

  read_pem-Ends :
      (b : Bool) (s : Startup)
      → IsFresh s
      → Ends ((not b || usable o.pem) && (o.connected && o.set_up)) o (read_pem o b s)
  unfolding read_pem
  read_pem-Ends false s h = after_key-Ends true s h
  read_pem-Ends true s h =
      called (usable o.pem && (o.connected && o.set_up)) o load_key (after_key o (usable o.pem) s)
        refl refl (after_key-Ends (usable o.pem) s h)

  after_config-Ends :
      (b : Bool) (s : Startup)
      → IsFresh s
      → Ends
          (b && ((not o.rsa_configured || usable o.pem) && (o.connected && o.set_up)))
          o
          (after_config o b s)
  unfolding after_config
  after_config-Ends false s h = stopped o s h
  after_config-Ends true s h =
      followed ((not o.rsa_configured || usable o.pem) && (o.connected && o.set_up)) reading_rsa
        (read_pem o o.rsa_configured) s (read_pem-Ends o.rsa_configured s h)

-- From a start without ports and a manager, and a game that is not shut down: if no call throws an
-- exception that `mainLoader` does not catch, then whatever the calls answer, `mainLoader` notifies
-- `main` once, by its last call. It starts the thread of the database once if the configuration, the
-- key when it is configured, the connection and the tables are good, and not otherwise; a port is
-- left exactly if they are good and the configured port is not 0, whether or not it could be opened.
pub main_loader-Ends :
    (o : Outcomes) (s : Startup) → IsCalm o → IsFresh s → Ends (succeeds o) o (main_loader o s)
unfolding main_loader state_calls
main_loader-Ends o s calm (none_open, not_set, live) =
    let next = after_config o o.config_loaded in
    enter-Leaves (if succeeds o then 1 else 0) (succeeds o && not (o.login_port == 0)) (succeeds o)
      startup (λ s'. calling (load_config ∷ []) (unless_thrown o loading_config next s')) s live
      (λ e. cc) refl
      (λ g live'.
        called (succeeds o) o load_config
          (unless_thrown o loading_config next (record s { game_state = g })) refl refl
          (followed o calm (succeeds o) loading_config next (record s { game_state = g })
            (after_config-Ends o calm o.config_loaded (record s { game_state = g })
              (none_open, not_set, live'))))
