-- ===== src/Tasks/Waking.antt =====
-- The dispatcher's thread and the threads that add tasks, in any order: no signal is lost.
use juggernaut_server.Base.{
  ℕ, suc, ◌≤◌, ◌≡◌, refl, Bool, true, false, List, [], ◌∷◌, if◌then◌else◌, arith,
}
use juggernaut_server.Tasks.{
  Task, Dispatcher, ThreadState, running, closing, terminated, add_task, shutdown, stop, no_tasks,
  take_first, enter_round, Place, at_head, waiting, ended,
}

-- The dispatcher, where its thread is, and the signals that are decided on and not sent yet.
pub record Threads : Type 0 where
  pub dispatcher : Dispatcher
  pub place : Place
  pub signals : ℕ

abbrev pub signalling : Place → ℕ → Bool × Dispatcher → Threads
signalling place n (signal, d) = record {
  dispatcher = d;
  place = place;
  signals = if signal then suc n else n;
}

-- A signal ends a wait, and is nothing to a thread that does not wait.
abbrev pub woken : Place → Place
woken waiting = at_head
woken place = place

-- `resumed` is a wait that ends: the thread goes on behind it with the list as it is now.
pub data ThreadStep (w : Threads) : Threads → Type 0 where
  adding :
      (task : Task) (push_front : Bool)
      → ThreadStep w (signalling w.place w.signals (add_task task push_front w.dispatcher))
  shutting : ThreadStep w (signalling w.place w.signals (true, shutdown w.dispatcher))
  stopping : ThreadStep w (signalling w.place w.signals (false, stop w.dispatcher))
  sent :
      (n : ℕ)
      → w.signals ≡ suc n
      → ThreadStep w (record { dispatcher = w.dispatcher; place = woken w.place; signals = n })
  turning :
      (now : ℕ)
      → w.place ≡ at_head
      → ThreadStep w (let (place, r) = enter_round now w.dispatcher in signalling place w.signals r)
  resumed :
      (now : ℕ)
      → w.place ≡ waiting
      → ThreadStep w
          (signalling at_head w.signals (take_first now w.dispatcher.task_list w.dispatcher))

pub data ThreadReach (w : Threads) : Threads → Type 0 where
  still : ThreadReach w w
  further : {u v : Threads} → ThreadReach w u → ThreadStep u v → ThreadReach w v

-- While the thread waits and there is a task, a signal is to come.
abbrev pub IsAwaited : Place → List Task → ℕ → Type 0
IsAwaited place tasks n = place ≡ waiting → no_tasks tasks ≡ false → 1 ≤ n

abbrev pub Awaited : Threads → Type 0
Awaited w = IsAwaited w.place w.dispatcher.task_list w.signals

add_task-Awaited :
    (task : Task) (push_front : Bool) (place : Place) (n : ℕ) (s : ThreadState) (tasks : List Task)
    (cycle : ℕ)
    → IsAwaited place tasks n
    → Awaited (
        signalling place n (
          add_task task push_front
            (record { thread_state = s; task_list = tasks; dispatcher_cycle = cycle })))
unfolding add_task
add_task-Awaited task push_front place n running [] cycle w h e = omega arith
add_task-Awaited task push_front place n running (t ∷ tasks) cycle w h e = w h refl
add_task-Awaited task push_front place n closing tasks cycle w h e = w h e
add_task-Awaited task push_front place n terminated tasks cycle w h e = w h e

enter_round-Awaited :
    (now n : ℕ) (s : ThreadState) (tasks : List Task) (cycle : ℕ)
    → let (place, r) =
        enter_round now
          (record { thread_state = s; task_list = tasks; dispatcher_cycle = cycle }) in
      Awaited (signalling place n r)
unfolding enter_round
enter_round-Awaited now n terminated tasks cycle h e = absurd (cc)
enter_round-Awaited now n running [] cycle h e = absurd (cc)
enter_round-Awaited now n running (t ∷ tasks) cycle h e = absurd (cc)
enter_round-Awaited now n closing [] cycle h e = absurd (cc)
enter_round-Awaited now n closing (t ∷ tasks) cycle h e = absurd (cc)

sent-Awaited : (place : Place) (tasks : List Task) (n : ℕ) → IsAwaited (woken place) tasks n
sent-Awaited at_head tasks n h e = absurd (cc)
sent-Awaited waiting tasks n h e = absurd (cc)
sent-Awaited ended tasks n h e = absurd (cc)

ThreadStep-Awaited : (u v : Threads) → Awaited u → ThreadStep u v → Awaited v
unfolding shutdown stop
ThreadStep-Awaited u v w (adding task push_front) =
    let d = u.dispatcher in
    add_task-Awaited task push_front u.place u.signals d.thread_state d.task_list d.dispatcher_cycle
      w
ThreadStep-Awaited u v w shutting = λ h e. omega arith
ThreadStep-Awaited u v w stopping = w
ThreadStep-Awaited u v w (sent n e) = sent-Awaited u.place u.dispatcher.task_list n
ThreadStep-Awaited u v w (turning now h) =
    let d = u.dispatcher in
    enter_round-Awaited now u.signals d.thread_state d.task_list d.dispatcher_cycle
ThreadStep-Awaited u v w (resumed now h) = λ h e. absurd (cc)

-- No wake-up of the dispatcher is lost. If it is so at first, then in every interleaving of added
-- tasks, sent signals, rounds of the thread, ends of its waits, `stop` and `shutdown`: while the
-- thread waits and the list has a task, a signal is still to be sent.
pub ThreadReach-Awaited : (u v : Threads) → Awaited u → ThreadReach u v → Awaited v
ThreadReach-Awaited u v w still = w
ThreadReach-Awaited u v w (further {u = x} r s) =
    ThreadStep-Awaited x v (ThreadReach-Awaited u x w r) s
