-- ===== src/Shutdown/Drain.antt =====
-- The rounds of the dispatcher from the change to the state of shutdown to the end of its thread.
use juggernaut_server.Base.{
  ℕ, ◌+◌, ◌≡◌, ◌≢◌, refl, sym, ap, ap₂, subst, ◌∙◌, Bool, true, false, List, [], ◌∷◌, ◌++◌,
  append-nil, append_assoc, if◌then◌else◌, ◌==◌, ==_iff, arith, All, length, u64,
}
use juggernaut_server.Tasks.{
  ThreadState, running, closing, terminated, Task, Work, call, end_thread, Dispatcher, has_expired,
  add_task, shutdown as shut_dispatcher, stop, take_first, run_task, do_work,
}
use juggernaut_server.Scheduler.{Scheduler, contains, shut_down}
use juggernaut_server.Manager.{close_all}
use juggernaut_server.Manager.Closing.{close_sockets-contains}
use juggernaut_server.Startup.{
  GameState, startup, init, normal, closed, shutdown, closing as closing_state, maintain, GameCall,
  add_shutdown_task, stop_scheduler, stop_dispatcher, set_game_state, state_calls, state_number,
}
use juggernaut_server.Shutdown.{
  System, shutdown_call, shutdown_task, perform, perform_all, change_state, stop_services,
  game_shutdown, run_work, run_unexpired, run_round, next_round, run_rounds,
}

-- A call other than `Game::shutdown`.
abbrev pub IsOther : Work → Type 0
IsOther (call f) = f ≢ shutdown_call
IsOther end_thread = ⊥

-- What the calls of a task that is taken at a time note.
abbrev pub noted : ℕ → Task → List ℕ
noted now task =
    if has_expired now task then [] else (elim task.work [ call f ↦ f ∷ [] | end_thread ↦ [] ])

abbrev pub all_noted : List ℕ → List Task → List ℕ
all_noted [] tasks = []
all_noted (now ∷ times) [] = []
all_noted (now ∷ times) (task ∷ tasks) = noted now task ++ all_noted times tasks

-- A system whose dispatcher is closing.
abbrev closing_system : System → List ℕ → List Task → ℕ → System
closing_system s calls tasks cycle = record s {
  called = calls;
  dispatcher = record { thread_state = closing; task_list = tasks; dispatcher_cycle = cycle };
}

-- Its dispatcher is closing, with its calls so far and its tasks.
abbrev IsClosing : System → List ℕ → List Task → ℕ → Type 0
IsClosing v calls tasks cycle =
    (v.called ≡ calls)
    × (v.dispatcher
        ≡ record { thread_state = closing; task_list = tasks; dispatcher_cycle = cycle })

as_closing :
    (v : System) (calls : List ℕ) (tasks : List Task) (cycle : ℕ)
    → IsClosing v calls tasks cycle
    → v ≡ closing_system v calls tasks cycle
as_closing v calls tasks cycle (noted_calls, state) =
    ap₂ (λ (c : List ℕ) (d : Dispatcher). record v { called = c; dispatcher = d }) noted_calls state

-- What a call other than `Game::shutdown` does leaves the dispatcher, which takes no task when it is
-- closing, and what was noted.
abbrev pub LeavesDispatcher : (ℕ → System → System) → Type 0
LeavesDispatcher effect =
    (f : ℕ) (v : System)
    → ((effect f v).called ≡ v.called) × ((effect f v).dispatcher ≡ v.dispatcher)

module _ (throws : ℕ → Bool) (effect : ℕ → System → System) where
  round-noted :
      (s : System) (now e : ℕ) (w : Work) (calls : List ℕ) (tasks : List Task) (cycle : ℕ)
      → LeavesDispatcher effect
      → IsOther w
      → let task : Task = record { expiration = e; work = w } in
        (cycle' : ℕ) × IsClosing
          (next_round throws effect now (closing_system s calls (task ∷ tasks) cycle))
          (calls ++ noted now task)
          tasks
          cycle'
  unfolding next_round run_round run_unexpired take_first run_task do_work run_work
  round-noted s now e end_thread calls tasks cycle leaves other = absurd other
  round-noted s now e (call f) calls tasks cycle leaves other =
      with_test (has_expired now (record { expiration = e; work = call f })) (f == shutdown_call)
        (ground (arith, ==_iff f shutdown_call, other))
    where
      rest : Dispatcher
      rest = record { thread_state = closing; task_list = tasks; dispatcher_cycle = cycle }

      counted : Dispatcher
      counted = record rest { dispatcher_cycle = u64 (cycle + 1) }

      taken : Bool → Bool × Dispatcher
      taken t = if t then (false, rest) else (false, counted)

      with_test :
          (t b : Bool)
          → b ≡ false
          → (cycle' : ℕ) × IsClosing
              (let s' : System = record s { called = calls; dispatcher = (taken t).1 } in
                let s'' : System = record s' { called = calls ++ f ∷ [] } in
                if t then s' else (if b then game_shutdown throws s'' else effect f s''))
              (calls ++ (if t then [] else f ∷ []))
              tasks
              cycle'
      with_test true b h = (cycle, (sym (append-nil calls), refl))
      with_test false b h = (
        u64 (cycle + 1),
        rw h (leaves f (closing_system s (calls ++ f ∷ []) tasks (u64 (cycle + 1)))),
      )

  -- The rounds of the queued tasks.
  rounds-noted :
      (times : List ℕ) (v : System) (calls : List ℕ) (tasks behind : List Task) (cycle : ℕ)
      → LeavesDispatcher effect
      → IsClosing v calls (tasks ++ behind) cycle
      → length times ≡ length tasks
      → All (λ task. IsOther task.work) tasks
      → (cycle' : ℕ) × IsClosing
          (run_rounds throws effect times v)
          (calls ++ all_noted times tasks)
          behind
          cycle'
  unfolding run_rounds
  rounds-noted [] v calls [] behind cycle leaves (h, state) same others =
      (cycle, (h ∙ sym (append-nil calls), state))
  rounds-noted [] v calls (task ∷ tasks) behind cycle leaves h same others =
      absurd (omega (arith, same))
  rounds-noted (now ∷ times) v calls [] behind cycle leaves h same others =
      absurd (omega (arith, same))
  rounds-noted (now ∷ times) v calls (task ∷ tasks) behind cycle leaves h same (other, others) =
      let (cycle', first) =
        round-noted v now task.expiration task.work calls (tasks ++ behind) cycle leaves other in
      let closes : System → Type 0 = λ (u : System).
        IsClosing (next_round throws effect now u) (calls ++ noted now task) (tasks ++ behind)
          cycle' in
      let first' = subst closes (sym (as_closing v calls (task ∷ tasks ++ behind) cycle h)) first in
      let (cycle'', (last_calls, state)) =
        rounds-noted times (next_round throws effect now v) (calls ++ noted now task) tasks behind
          cycle' leaves first' (omega (arith, same)) others in
      (cycle'', (last_calls ∙ append_assoc calls (noted now task) (all_noted times tasks), state))

  -- What is left when the thread has ended.
  abbrev ended_system : System → List ℕ → ℕ → System
  ended_system s calls cycle = record s {
    called = calls ++ shutdown_call ∷ [];
    dispatcher = record { thread_state = terminated; task_list = []; dispatcher_cycle = cycle };
    scheduler = shut_down s.scheduler;
    service_manager = stop_services throws s.service_manager;
    connections = close_all s.connections;
  }

  last_rounds :
      (s : System) (t1 t2 : ℕ) (calls : List ℕ) (cycle : ℕ)
      → (cycle' : ℕ) × (run_rounds throws effect
            (t1 ∷ t2 ∷ [])
            (closing_system s calls (shutdown_task ∷ []) cycle)
          ≡ ended_system s calls cycle')
  unfolding run_rounds next_round run_round run_unexpired take_first run_task do_work run_work
      game_shutdown shut_dispatcher has_expired
  last_rounds s t1 t2 calls cycle = (u64 (u64 (cycle + 1) + 1), refl)

-- The change to the state of shutdown.
shutdown_calls :
    (state : GameState)
    → state ≢ shutdown
    → set_game_state state shutdown
      ≡ (add_shutdown_task ∷ stop_scheduler ∷ stop_dispatcher ∷ [], shutdown)
unfolding set_game_state state_calls state_number
shutdown_calls startup h = refl
shutdown_calls init h = refl
shutdown_calls normal h = refl
shutdown_calls closed h = refl
shutdown_calls shutdown h = absurd (h refl)
shutdown_calls closing_state h = refl
shutdown_calls maintain h = refl

-- The system behind it.
abbrev stopping : System → System
stopping s =
    let d : Scheduler = record (s.scheduler) { thread_state = closing } in
    record s { game_state = shutdown; scheduler = d }

added_task :
    (state : ThreadState) (tasks : List Task) (cycle : ℕ)
    → state ≡ running
    → stop
        (add_task shutdown_task false
          (record { thread_state = state; task_list = tasks; dispatcher_cycle = cycle })).1
      ≡ record {
        thread_state = closing;
        task_list = tasks ++ shutdown_task ∷ [];
        dispatcher_cycle = cycle;
      }
unfolding add_task stop
added_task running tasks cycle h = refl
added_task closing tasks cycle h = absurd (cc)
added_task terminated tasks cycle h = absurd (cc)

change_state-shutdown :
    (s : System)
    → s.game_state ≢ shutdown
    → s.dispatcher.thread_state ≡ running
    → change_state shutdown s
      ≡ closing_system
          (stopping s)
          s.called
          (s.dispatcher.task_list ++ shutdown_task ∷ [])
          s.dispatcher.dispatcher_cycle
unfolding change_state perform_all perform
change_state-shutdown s live on =
    let performed : List GameCall × GameState → System =
      λ (c : List GameCall × GameState). perform_all c.0 (record s { game_state = c.1 }) in
    ap performed (shutdown_calls s.game_state live)
    ∙ ap (λ (d : Dispatcher). record (stopping s) { dispatcher = d })
        (added_task s.dispatcher.thread_state s.dispatcher.task_list s.dispatcher.dispatcher_cycle
          on)

-- When the game is set to the state of shutdown, from another one and with the dispatcher running, the
-- dispatcher's thread runs the tasks that are queued, in their order and those that have not expired,
-- and `Game::shutdown` behind them, and ends, in two rounds more than there are tasks. Whatever the
-- queued tasks do to the rest of the system, then the scheduler is in its terminated state without
-- events, the services that they left have been stopped, and of the sockets that they left those of
-- the registered connections are closed. The queued tasks are calls other than `Game::shutdown`, and
-- leave the dispatcher as it is.
pub shutdown-drains :
    (throws : ℕ → Bool) (effect : ℕ → System → System) (s : System) (times : List ℕ) (t1 t2 i : ℕ)
    → s.game_state ≢ shutdown
    → s.dispatcher.thread_state ≡ running
    → LeavesDispatcher effect
    → All (λ task. IsOther task.work) s.dispatcher.task_list
    → length times ≡ length s.dispatcher.task_list
    → let v = run_rounds throws effect times (change_state shutdown s) in
      let s' = run_rounds throws effect (t1 ∷ t2 ∷ []) v in
      (s'.dispatcher.thread_state ≡ terminated)
      × (s'.dispatcher.task_list ≡ [])
      × (s'.called ≡ (s.called ++ all_noted times s.dispatcher.task_list) ++ shutdown_call ∷ [])
      × (s'.scheduler.thread_state ≡ terminated)
      × (s'.scheduler.event_list ≡ [])
      × (s'.service_manager ≡ stop_services throws v.service_manager)
      × (s'.connections.connections ≡ [])
      × (s'.connections.sockets i
          ≡ (if contains i v.connections.connections then false else v.connections.sockets i))
unfolding shut_down close_all
shutdown-drains throws effect s times t1 t2 i live on leaves others same =
    let tasks = s.dispatcher.task_list in
    let calls = s.called ++ all_noted times tasks in
    let started : System = change_state shutdown s in
    let closes : System → Type 0 = λ (u : System).
      IsClosing u s.called (tasks ++ shutdown_task ∷ []) s.dispatcher.dispatcher_cycle in
    let first = subst closes (sym (change_state-shutdown s live on)) (refl, refl) in
    let (cycle', drained) =
      rounds-noted throws effect times started s.called tasks (shutdown_task ∷ [])
        s.dispatcher.dispatcher_cycle leaves first same others in
    let v : System = run_rounds throws effect times started in
    let (cycle'', ended) = last_rounds throws effect v t1 t2 calls cycle' in
    let over =
      ap (run_rounds throws effect (t1 ∷ t2 ∷ []))
        (as_closing v calls (shutdown_task ∷ []) cycle' drained)
      ∙ ended in
    subst Over (sym over) (
      refl,
      refl,
      refl,
      refl,
      refl,
      refl,
      refl,
      close_sockets-contains v.connections.connections v.connections.sockets i,
    )
  where
    Over : System → Type 0
    Over s' =
        let v = run_rounds throws effect times (change_state shutdown s) in
        (s'.dispatcher.thread_state ≡ terminated)
        × (s'.dispatcher.task_list ≡ [])
        × (s'.called ≡ (s.called ++ all_noted times s.dispatcher.task_list) ++ shutdown_call ∷ [])
        × (s'.scheduler.thread_state ≡ terminated)
        × (s'.scheduler.event_list ≡ [])
        × (s'.service_manager ≡ stop_services throws v.service_manager)
        × (s'.connections.connections ≡ [])
        × (s'.connections.sockets i
            ≡ (if contains i v.connections.connections then false else v.connections.sockets i))
