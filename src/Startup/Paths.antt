-- ===== src/Startup/Paths.antt =====
-- The calls on a path of `mainLoader` of source/main.cpp, and what it leaves.
use juggernaut_server.Base.{
  ℕ, ◌+◌, ◌≡◌, ◌≢◌, refl, sym, ap, subst, Bool, true, false, not, ◌&&◌, ◌||◌, List, [], ◌∷◌, ◌++◌,
  ◌==◌, map, if◌then◌else◌, arith,
}
use juggernaut_server.Startup.{
  GameState, startup, init, normal, closed, shutdown, closing, maintain, state_calls,
  set_game_state, GameCall, Outcomes, Startup, LoaderStep, unless_thrown, uncaught, LoaderCall,
  start_database_tasks, notify_all, game_call, Loaded, calling, enter, usable, is_running,
}

-- How often the calls notify `main`, and start the thread of the database.
abbrev pub notification : LoaderCall → ℕ
notification notify_all = 1
notification c = 0

abbrev pub notifies : List LoaderCall → ℕ
notifies [] = 0
notifies (c ∷ calls) = notification c + notifies calls

abbrev pub database_start : LoaderCall → ℕ
database_start start_database_tasks = 1
database_start c = 0

abbrev pub starts : List LoaderCall → ℕ
starts [] = 0
starts (c ∷ calls) = database_start c + starts calls

-- The last call is the notification, and the only one.
abbrev pub EndsNotified : List LoaderCall → Type 0
EndsNotified calls =
    (front : List LoaderCall) × (calls ≡ front ++ notify_all ∷ []) × (notifies front ≡ 0)

-- A path that starts the thread of the database `n` times, and whether it leaves a port and the
-- services' manager.
abbrev pub Leaves : ℕ → Bool → Bool → Loaded → Type 0
Leaves n running set (calls, s) =
    EndsNotified calls
    × (starts calls ≡ n)
    × (is_running s.acceptors ≡ running)
    × (s.manager_set ≡ set)

-- A path that comes to the services or not.
abbrev pub Ends : Bool → Outcomes → Loaded → Type 0
Ends reached o r = Leaves (if reached then 1 else 0) (reached && not (o.login_port == 0)) reached r

abbrev pub IsFresh : Startup → Type 0
IsFresh s = (s.acceptors ≡ []) × (s.manager_set ≡ false) × (s.game_state ≢ shutdown)

-- No call throws an exception that `mainLoader` does not catch.
abbrev pub IsCalm : Outcomes → Type 0
IsCalm o = (step : LoaderStep) → o.exceptions step ≡ false

-- The way to the services.
abbrev pub succeeds : Outcomes → Bool
succeeds o =
    o.config_loaded && ((not o.rsa_configured || usable o.pem) && (o.connected && o.set_up))

pub quiet_if :
    (t : Bool) (old new : GameState)
    → old ≢ shutdown
    → new ≢ shutdown
    → state_calls new ≡ []
    → (g : GameState) × (g ≢ shutdown)
      × (◌≡◌ {A = List GameCall × GameState}
          (if t then ([], old) else (state_calls new, new))
          ([], g))
quiet_if true old new h h' e = (old, h, refl)
quiet_if false old new h h' e = (new, h', ap (λ calls. (calls, new)) e)

pub set_game_state-quiet :
    (old new : GameState)
    → old ≢ shutdown
    → new ≢ shutdown
    → state_calls new ≡ []
    → (g : GameState) × (g ≢ shutdown) × (set_game_state old new ≡ ([], g))
unfolding set_game_state
set_game_state-quiet shutdown new h h' e = absurd (h refl)
set_game_state-quiet startup new h h' e = quiet_if _ startup new h h' e
set_game_state-quiet init new h h' e = quiet_if _ init new h h' e
set_game_state-quiet normal new h h' e = quiet_if _ normal new h h' e
set_game_state-quiet closed new h h' e = quiet_if _ closed new h h' e
set_game_state-quiet closing new h h' e = quiet_if _ closing new h h' e
set_game_state-quiet maintain new h h' e = quiet_if _ maintain new h h' e

-- What holds behind every such state holds behind its entry.
pub enter-Leaves :
    (n : ℕ) (running set : Bool) (new : GameState) (next : Startup → Loaded) (s : Startup)
    → s.game_state ≢ shutdown
    → new ≢ shutdown
    → state_calls new ≡ []
    → ((g : GameState) → g ≢ shutdown → Leaves n running set (next (record s { game_state = g })))
    → Leaves n running set (enter new next s)
unfolding enter
enter-Leaves n running set new next s h h' e all =
    let (g, live, r) = set_game_state-quiet s.game_state new h h' e in
    let entered : List GameCall × GameState → Loaded = λ (c : List GameCall × GameState).
      calling (map game_call c.0) (next (record s { game_state = c.1 })) in
    subst (Leaves n running set) (sym (ap entered r)) (all g live)

-- A call in front that is not the notification.
pub calling-Leaves :
    (n : ℕ) (running set : Bool) (c : LoaderCall) (r : Loaded)
    → notification c ≡ 0
    → Leaves n running set r
    → Leaves (database_start c + n) running set (calling (c ∷ []) r)
calling-Leaves n running set c (calls, s) h ((front, e, k), m, ports, manager) =
    ((c ∷ front, ap (λ x. c ∷ x) e, omega (arith, h, k)), omega (arith, m), ports, manager)

pub unless_thrown-Leaves :
    (n : ℕ) (running set : Bool) (o : Outcomes) (step : LoaderStep) (next : Startup → Loaded)
    (s : Startup)
    → IsCalm o
    → Leaves n running set (next s)
    → Leaves n running set (unless_thrown o step next s)
unfolding unless_thrown
unless_thrown-Leaves n running set o step next s calm h =
    let follow : Bool → Loaded = λ (b : Bool). if b then (uncaught step ∷ [], s) else next s in
    subst (Leaves n running set) (sym (ap follow (calm step))) h
