-- ===== src/Signals/Handling.antt =====
-- The signals of source/signals.cpp that arrive, and the rounds of the dispatcher that run their
-- handlers, in any order.
use juggernaut_server.Base.{
  ℕ, ◌+◌, ◌≡◌, refl, sym, ap, ap₂, ◌∙◌, codes, Bool, true, false, List, [], ◌∷◌, ◌++◌, append_assoc,
  Option, none, some, u64, All, All-append,
}
use juggernaut_server.Tasks.{running, Task, has_expired, add_task, take_first, run_task, do_work}
use juggernaut_server.Shutdown.{System, run_work, run_unexpired, run_round, next_round}
use juggernaut_server.Signals.{
  run_handler, Signal, is_registered, handler, handler_task, dispatch_signal_handler, SignalWorld,
  async_wait, on_signal, sigint, sigterm, sigusr1, sighup, other_signal,
}

-- The worlds that follow, with the signals that arrived in between.
pub data SignalReach (throws : ℕ → Bool) (w : SignalWorld)
    : List Signal → SignalWorld → Type 0 where
  here : SignalReach throws w [] w
  arrives :
      {signals : List Signal} {v : SignalWorld}
      → SignalReach throws w signals v
      → (signal : Signal) → v.waiting ≡ true
      → is_registered signal ≡ true
      → SignalReach throws w (signals ++ signal ∷ []) (on_signal (some signal) v)
  fails :
      {signals : List Signal} {v : SignalWorld}
      → SignalReach throws w signals v
      → v.waiting ≡ true
      → SignalReach throws w signals (on_signal none v)
  runs :
      {signals : List Signal} {v : SignalWorld}
      → SignalReach throws w signals v
      → (now : ℕ)
      → SignalReach throws w signals
          (record v { system = next_round throws run_handler now v.system })

-- What the handler of a signal prints.
abbrev pub message : Signal → List ℕ
message sigint = codes "SIGINT received, shutting game server down..."
message sigterm = codes "SIGTERM received, shutting game server down..."
message sighup = codes "SIGHUP received, reloading config files..."
message sigusr1 = codes "SIGUSR1 received, saving the game state..."
message (other_signal n) = []

abbrev pub messages : List Signal → List (List ℕ)
messages [] = []
messages (signal ∷ signals) = message signal ∷ messages signals

abbrev pub calls_of : List Signal → List ℕ
calls_of [] = []
calls_of (signal ∷ signals) =
    (elim (handler signal) [ none ↦ [] | some f ↦ f ∷ [] ]) ++ calls_of signals

abbrev pub tasks_of : List ℕ → List Task
tasks_of [] = []
tasks_of (f ∷ fs) = handler_task f ∷ tasks_of fs

-- A system that runs, with the signals whose handlers ran, and those whose handlers are queued.
abbrev pub serving : System → List Signal → List Signal → ℕ → System
serving s ran queued cycle = record s {
  called = s.called ++ calls_of ran;
  console = s.console ++ messages ran;
  dispatcher = record {
    thread_state = running;
    task_list = tasks_of (calls_of queued);
    dispatcher_cycle = cycle;
  };
}

tasks_of-append :
    (fs : List ℕ) (f : ℕ) → tasks_of fs ++ handler_task f ∷ [] ≡ tasks_of (fs ++ f ∷ [])
tasks_of-append [] f = refl
tasks_of-append (g ∷ fs) f = ap (λ tasks. handler_task g ∷ tasks) (tasks_of-append fs f)

calls_of-append :
    (signals : List Signal) (signal : Signal) (f : ℕ)
    → handler signal ≡ some f
    → calls_of (signals ++ signal ∷ []) ≡ calls_of signals ++ f ∷ []
calls_of-append [] signal f h =
    ap (λ (o : Option ℕ). (elim o [ none ↦ [] | some g ↦ g ∷ [] ]) ++ []) h
calls_of-append (s ∷ signals) signal f h =
    let own : List ℕ = elim (handler s) [ none ↦ [] | some g ↦ g ∷ [] ] in
    ap (λ fs. own ++ fs) (calls_of-append signals signal f h)
    ∙ sym (append_assoc own (calls_of signals) (f ∷ []))

messages-append :
    (signals : List Signal) (signal : Signal)
    → messages (signals ++ signal ∷ []) ≡ messages signals ++ message signal ∷ []
messages-append [] signal = refl
messages-append (s ∷ signals) signal =
    ap (λ texts. message s ∷ texts) (messages-append signals signal)

registered-handler :
    (signal : Signal) → is_registered signal ≡ true → (f : ℕ) × (handler signal ≡ some f)
unfolding is_registered handler
registered-handler sigint h = (1, refl)
registered-handler sigterm h = (2, refl)
registered-handler sighup h = (3, refl)
registered-handler sigusr1 h = (4, refl)
registered-handler (other_signal n) h = absurd (cc)

module _ (throws : ℕ → Bool) (s : System) where
  dispatch-serving :
      (signal : Signal) (f : ℕ) (ran queued : List Signal) (cycle : ℕ)
      → handler signal ≡ some f
      → dispatch_signal_handler signal (serving s ran queued cycle)
        ≡ serving s ran (queued ++ signal ∷ []) cycle
  unfolding dispatch_signal_handler add_task
  dispatch-serving signal f ran queued cycle h =
      let u = serving s ran queued cycle in
      let dispatched : Option ℕ → System = λ (o : Option ℕ). elim o [
        | none ↦ u
        | some g ↦ record u { dispatcher = (add_task (handler_task g) false u.dispatcher).1 }
      ] in
      let with_tasks : List Task → System = λ (tasks : List Task). record u {
        dispatcher = record { thread_state = running; task_list = tasks; dispatcher_cycle = cycle };
      } in
      ap dispatched h
      ∙ ap with_tasks (tasks_of-append (calls_of queued) f)
      ∙ ap (λ fs. with_tasks (tasks_of fs)) (sym (calls_of-append queued signal f h))

  -- One more handler that ran.
  noted :
      (signal : Signal) (f : ℕ) (ran queued : List Signal) (cycle : ℕ)
      → handler signal ≡ some f
      → (let u = serving s ran queued cycle in
          ◌≡◌ {A = System}
            (record u {
              called = (s.called ++ calls_of ran) ++ f ∷ [];
              console = (s.console ++ messages ran) ++ message signal ∷ [];
            })
            (serving s (ran ++ signal ∷ []) queued cycle))
  noted signal f ran queued cycle h =
      let u = serving s ran queued cycle in
      ap₂ (λ (calls : List ℕ) (texts : List (List ℕ)). record u { called = calls; console = texts })
        (append_assoc s.called (calls_of ran) (f ∷ [])
          ∙ ap (λ fs. s.called ++ fs) (sym (calls_of-append ran signal f h)))
        (append_assoc s.console (messages ran) (message signal ∷ [])
          ∙ ap (λ texts. s.console ++ texts) (sym (messages-append ran signal)))

  round-serving :
      (now : ℕ) (signal : Signal) (ran queued : List Signal) (cycle : ℕ)
      → is_registered signal ≡ true
      → next_round throws run_handler now (serving s ran (signal ∷ queued) cycle)
        ≡ serving s (ran ++ signal ∷ []) queued (u64 (cycle + 1))
  unfolding next_round run_round run_unexpired take_first run_task do_work run_work has_expired
      run_handler handler is_registered
  round-serving now sigint ran queued cycle h = noted sigint 1 ran queued (u64 (cycle + 1)) refl
  round-serving now sigterm ran queued cycle h = noted sigterm 2 ran queued (u64 (cycle + 1)) refl
  round-serving now sighup ran queued cycle h = noted sighup 3 ran queued (u64 (cycle + 1)) refl
  round-serving now sigusr1 ran queued cycle h = noted sigusr1 4 ran queued (u64 (cycle + 1)) refl
  round-serving now (other_signal n) ran queued cycle h = absurd (cc)

  idle-serving :
      (now : ℕ) (ran : List Signal) (cycle : ℕ)
      → next_round throws run_handler now (serving s ran [] cycle) ≡ serving s ran [] cycle
  unfolding next_round run_round
  idle-serving now ran cycle = refl

  abbrev Serves : List Signal → System → Type 0
  Serves signals v =
      (ran queued : List Signal) × (cycle : ℕ) × (v ≡ serving s ran queued cycle)
      × (ran ++ queued ≡ signals)
      × All (λ signal. is_registered signal ≡ true) queued

  dispatch-Serves :
      (signals : List Signal) (signal : Signal) (v : System)
      → is_registered signal ≡ true
      → Serves signals v
      → Serves (signals ++ signal ∷ []) (dispatch_signal_handler signal v)
  dispatch-Serves signals signal v registered (ran, queued, cycle, e, all_of, others) =
      let (f, h) = registered-handler signal registered in
      (
        ran,
        queued ++ signal ∷ [],
        cycle,
        ap (dispatch_signal_handler signal) e ∙ dispatch-serving signal f ran queued cycle h,
        sym (append_assoc ran queued (signal ∷ [])) ∙ ap (λ xs. xs ++ signal ∷ []) all_of,
        All-append (λ x. is_registered x ≡ true) queued (signal ∷ []) others (registered, tt),
      )

  round-Serves :
      (now : ℕ) (signals : List Signal) (v : System)
      → Serves signals v
      → Serves signals (next_round throws run_handler now v)
  round-Serves now signals v (ran, [], cycle, e, all_of, others) = (
    ran,
    [],
    cycle,
    ap (next_round throws run_handler now) e ∙ idle-serving now ran cycle,
    all_of,
    others,
  )
  round-Serves now signals v (ran, signal ∷ queued, cycle, e, all_of, (registered, others)) = (
    ran ++ signal ∷ [],
    queued,
    u64 (cycle + 1),
    ap (next_round throws run_handler now) e ∙ round-serving now signal ran queued cycle registered,
    append_assoc ran (signal ∷ []) queued ∙ all_of,
    others,
  )

  -- The start of the signals.
  abbrev pub at_start : ℕ → SignalWorld
  at_start cycle = record { waiting = true; system = serving s [] [] cycle }

  Reach-Serves :
      (cycle : ℕ) (signals : List Signal) (v : SignalWorld)
      → SignalReach throws (at_start cycle) signals v
      → Serves signals v.system
  unfolding on_signal async_wait
  Reach-Serves cycle _ _ here = ([], [], cycle, refl, refl, tt)
  Reach-Serves cycle _ _ (arrives {signals} {v} r signal waits registered) =
      dispatch-Serves signals signal v.system registered (Reach-Serves cycle signals v r)
  Reach-Serves cycle _ _ (fails {signals} {v} r waits) = Reach-Serves cycle signals v r
  Reach-Serves cycle _ _ (runs {signals} {v} r now) =
      round-Serves now signals v.system (Reach-Serves cycle signals v r)

  -- From a wait for signals and a dispatcher that runs without tasks: in whichever order signals
  -- arrive and the dispatcher runs, the handlers of the signals that arrived run in their order, each
  -- prints its message, those that did not run yet are queued, and but for the calls, the console and
  -- the dispatcher's tasks and count of its cycles nothing else of the server changes, although the
  -- messages say so: not the state of the game, the dispatcher's thread, the scheduler, the services
  -- or the connections.
  pub SignalReach-Handles :
      (cycle : ℕ) (signals : List Signal) (v : SignalWorld)
      → SignalReach throws (at_start cycle) signals v
      → (ran queued : List Signal) × (cycle' : ℕ) × (v.system ≡ serving s ran queued cycle')
        × (ran ++ queued ≡ signals)
  SignalReach-Handles cycle signals v r =
      let (ran, queued, cycle', e, all_of, others) = Reach-Serves cycle signals v r in
      (ran, queued, cycle', e, all_of)
