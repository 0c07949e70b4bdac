-- ===== src/Scheduler/Stranding.antt =====
-- The scheduler's thread and the one that shuts it down, of source/scheduler.cpp, step by step: the
-- thread reads its state without the lock, and takes the lock to wait. A wait ends by a signal, or by
-- the time of an event; a wake-up without either does not happen here.
use juggernaut_server.Base.{
  ℕ, ◌≡◌, refl, sym, ap, subst, ◌∙◌, Bool, false, List, [], ◌∷◌, ◌++◌, if◌then◌else◌, arith,
}
use juggernaut_server.Tasks.{ThreadState, running, closing, terminated}
use juggernaut_server.Scheduler.{Event, Scheduler, add_event, stop_event, run_top, shut_down}

pub data SchedulerPlace : Type 0 where
  at_head checked waiting timed ended : SchedulerPlace

-- How far `shutdown` is.
pub data ShutdownPlace : Type 0 where
  before_state before_clear before_signal done : ShutdownPlace

pub record Threads : Type 0 where
  pub scheduler : Scheduler
  pub thread : SchedulerPlace
  pub closer : ShutdownPlace

-- The test of the loop, the choice of the wait, and what a signal does.
unfoldable pub test_state : ThreadState → SchedulerPlace
test_state terminated = ended
test_state state = checked

unfoldable pub begin_wait : List Event → SchedulerPlace
begin_wait [] = waiting
begin_wait (task ∷ tasks) = timed

unfoldable pub signal_event : SchedulerPlace → SchedulerPlace
signal_event waiting = at_head
signal_event timed = at_head
signal_event place = place

-- The parts of `shutdown`.
unfoldable pub set_terminated : Scheduler → Scheduler
set_terminated s = record s { thread_state = terminated }

unfoldable pub clear_events : Scheduler → Scheduler
clear_events s = record s { event_list = []; event_ids = [] }

shut_down-parts : (s : Scheduler) → shut_down s ≡ clear_events (set_terminated s)
unfolding shut_down clear_events set_terminated
shut_down-parts s = refl

unfoldable pub add_signalled : Bool → Event → Threads → Threads
unfolding add_event signal_event
add_signalled is_top task w =
    let (id, (signals, s)) = add_event is_top task w.scheduler in
    record w { scheduler = s; thread = if signals then signal_event w.thread else w.thread }

pub data ThreadsStep (w : Threads) : Threads → Type 0 where
  tests :
      w.thread ≡ at_head → ThreadsStep w (record w { thread = test_state w.scheduler.thread_state })
  waits :
      w.thread ≡ checked → ThreadsStep w (record w { thread = begin_wait w.scheduler.event_list })
  comes_due :
      (before behind : List Event) (task : Event)
      → w.thread ≡ timed
      → w.scheduler.event_list ≡ before ++ task ∷ behind
      → ThreadsStep w (record w {
        scheduler = (run_top task (before ++ behind) w.scheduler).1;
        thread = at_head;
      })
  adds : (is_top : Bool) (task : Event) → ThreadsStep w (add_signalled is_top task w)
  stops : (id : ℕ) → ThreadsStep w (record w { scheduler = (stop_event id w.scheduler).1 })
  terminates :
      w.closer ≡ before_state
      → ThreadsStep w (record w { scheduler = set_terminated w.scheduler; closer = before_clear })
  clears :
      w.closer ≡ before_clear
      → ThreadsStep w (record w { scheduler = clear_events w.scheduler; closer = before_signal })
  signals :
      w.closer ≡ before_signal
      → ThreadsStep w (record w { thread = signal_event w.thread; closer = done })

pub data ThreadsReach (w : Threads) : Threads → Type 0 where
  here : ThreadsReach w w
  step : {u v : Threads} → ThreadsReach w u → ThreadsStep u v → ThreadsReach w v

-- The scheduler was shut down and waits for an event.
abbrev pub IsStranded : Threads → Type 0
IsStranded w =
    (w.thread ≡ waiting)
    × (w.closer ≡ done)
    × (w.scheduler.thread_state ≡ terminated)
    × (w.scheduler.event_list ≡ [])

add_event-refused :
    (is_top : Bool) (task : Event) (state : ThreadState) (last : ℕ) (list : List Event)
    (ids : List ℕ)
    → state ≡ terminated
    → let s : Scheduler = record {
      thread_state = state;
      last_event_id = last;
      event_list = list;
      event_ids = ids;
    } in
      add_event is_top task s ≡ (0, (false, s))
unfolding add_event
add_event-refused is_top task running last list ids h = absurd (cc)
add_event-refused is_top task closing last list ids h = refl
add_event-refused is_top task terminated last list ids h = refl

add_signalled-refused :
    (is_top : Bool) (task : Event) (w : Threads)
    → w.scheduler.thread_state ≡ terminated
    → add_signalled is_top task w ≡ w
unfolding add_signalled
add_signalled-refused is_top task w h =
    let s = w.scheduler in
    let answer : ℕ × (Bool × Scheduler) → Threads = λ (r : ℕ × (Bool × Scheduler)). record w {
      scheduler = r.1.1;
      thread = if r.1.0 then signal_event w.thread else w.thread;
    } in
    ap answer
      (add_event-refused is_top task s.thread_state s.last_event_id s.event_list s.event_ids h)

stop_event-keeps :
    (id : ℕ) (s : Scheduler)
    → ((stop_event id s).1.thread_state ≡ s.thread_state)
      × ((stop_event id s).1.event_list ≡ s.event_list)
unfolding stop_event
stop_event-keeps id s = ground arith

ThreadsStep-IsStranded : (w v : Threads) → IsStranded w → ThreadsStep w v → IsStranded v
ThreadsStep-IsStranded w v (t, c, s, l) (tests e) = absurd (cc)
ThreadsStep-IsStranded w v (t, c, s, l) (waits e) = absurd (cc)
ThreadsStep-IsStranded w v (t, c, s, l) (comes_due before behind task e l') = absurd (cc)
ThreadsStep-IsStranded w v h (adds is_top task) =
    subst IsStranded (sym (add_signalled-refused is_top task w h.2)) h
ThreadsStep-IsStranded w v (t, c, s, l) (stops id) =
    let (same_state, same_list) = stop_event-keeps id w.scheduler in
    (t, c, same_state ∙ s, same_list ∙ l)
ThreadsStep-IsStranded w v (t, c, s, l) (terminates e) = absurd (cc)
ThreadsStep-IsStranded w v (t, c, s, l) (clears e) = absurd (cc)
ThreadsStep-IsStranded w v (t, c, s, l) (signals e) = absurd (cc)

ThreadsReach-IsStranded : (w v : Threads) → IsStranded w → ThreadsReach w v → IsStranded v
ThreadsReach-IsStranded w v h here = h
ThreadsReach-IsStranded w v h (step {u} r st) =
    ThreadsStep-IsStranded u v (ThreadsReach-IsStranded w u h r) st

-- A running scheduler whose thread is at the head of its loop.
abbrev pub at_work : Scheduler → Threads
at_work s = record { scheduler = s; thread = at_head; closer = before_state }

abbrev pub stranded : Scheduler → Threads
stranded s = record { scheduler = clear_events (set_terminated s); thread = waiting; closer = done }

stranded-reached :
    (s : Scheduler) → s.thread_state ≡ running → ThreadsReach (at_work s) (stranded s)
unfolding test_state begin_wait signal_event clear_events
stranded-reached s on =
    let tested : ThreadsReach (at_work s)
        (record { scheduler = s; thread = checked; closer = before_state }) =
      subst
        (λ p.
          ThreadsReach (at_work s) (record { scheduler = s; thread = p; closer = before_state }))
        (ap test_state on) (step here (tests refl)) in
    step (step (step (step tested (terminates refl)) (clears refl)) (signals refl)) (waits refl)

-- From any running scheduler whose thread has come to the head of its loop, there is a shutdown
-- behind which the thread waits, with no event left and no signal to come; and whatever is done
-- from there, it goes on waiting, as long as no wait ends without a signal.
pub shutdown-strands :
    (s : Scheduler) (v : Threads)
    → s.thread_state ≡ running
    → ThreadsReach (stranded s) v
    → ThreadsReach (at_work s) (stranded s) × IsStranded v
unfolding clear_events set_terminated
shutdown-strands s v on r =
    (stranded-reached s on, ThreadsReach-IsStranded (stranded s) v (refl, refl, refl, refl) r)
