-- ===== src/Scheduler/Stopping.antt =====
-- Events that `stopEvent` of source/scheduler.cpp stopped.
use juggernaut_server.Base.{
  ℕ, ◌+◌, ◌≡◌, ◌≢◌, refl, ap, ◌∙◌, Bool, true, false, List, [], ◌∷◌, ◌++◌, Option, none, some, ◌==◌,
  ==_iff, if◌then◌else◌, arith,
}
use juggernaut_server.Tasks.{ThreadState, running, closing, terminated}
use juggernaut_server.Scheduler.{
  Event, Scheduler, contains, insert, erase, choose_id, add_event, stop_event, run_top, shut_down,
}

-- A scheduler, and the events that it handed to the dispatcher, the last one first.
pub record Run : Type 0 where
  pub scheduler : Scheduler
  pub dispatched : List Event

abbrev pub with_event : Option Event → List Event → List Event
with_event none events = events
with_event (some task) events = task ∷ events

abbrev pub run_due : Event → List Event → Run → Run
run_due task rest w =
    let (o, s) = run_top task rest w.scheduler in
    record { scheduler = s; dispatched = with_event o w.dispatched }

-- What happens while no event gets the identifier `a`: events are added and stopped, the time of an
-- event comes, and the scheduler is shut down.
pub data RunStep (a : ℕ) (w : Run) : Run → Type 0 where
  added :
      (is_top : Bool) (task : Event)
      → (add_event is_top task w.scheduler).0 ≢ a
      → RunStep a w (record w { scheduler = (add_event is_top task w.scheduler).1.1 })
  stopped : (id : ℕ) → RunStep a w (record w { scheduler = (stop_event id w.scheduler).1 })
  due :
      (before behind : List Event) (task : Event)
      → w.scheduler.event_list ≡ before ++ task ∷ behind
      → RunStep a w (run_due task (before ++ behind) w)
  shut : RunStep a w (record w { scheduler = shut_down w.scheduler })

pub data RunReach (a : ℕ) (w : Run) : Run → Type 0 where
  begin : RunReach a w w
  step : {u v : Run} → RunReach a w u → RunStep a u v → RunReach a w v

abbrev pub runs_of : ℕ → List Event → ℕ
runs_of a [] = 0
runs_of a (task ∷ events) = (if task.event_id == a then 1 else 0) + runs_of a events

-- The identifier is not active, and its events were dispatched `n` times.
abbrev pub IsStopped : ℕ → ℕ → Run → Type 0
IsStopped a n w = (contains a w.scheduler.event_ids ≡ false) × (runs_of a w.dispatched ≡ n)

contains-insert :
    (a b : ℕ) (xs : List ℕ) → b ≢ a → contains a xs ≡ false → contains a (insert b xs) ≡ false
unfolding contains insert
contains-insert a b xs h e = ground (arith, ==_iff b a)

contains-erase : (a b : ℕ) (xs : List ℕ) → contains a xs ≡ false → contains a (erase b xs) ≡ false
unfolding contains erase
contains-erase a b [] e = refl
contains-erase a b (x ∷ xs) e = ground (arith, contains-erase a b xs)

contains-erase_self : (a : ℕ) (xs : List ℕ) → contains a (erase a xs) ≡ false
unfolding contains erase
contains-erase_self a [] = refl
contains-erase_self a (x ∷ xs) = ground (arith, contains-erase_self a xs)

add_event-Stopped :
    (a : ℕ) (is_top : Bool) (task : Event) (t : ThreadState) (last : ℕ) (list : List Event)
    (ids : List ℕ)
    → let s : Scheduler = record {
      thread_state = t;
      last_event_id = last;
      event_list = list;
      event_ids = ids;
    } in
      (add_event is_top task s).0 ≢ a
      → contains a ids ≡ false
      → contains a (add_event is_top task s).1.1.event_ids ≡ false
unfolding add_event
add_event-Stopped a is_top task running last list ids h e =
    contains-insert a (choose_id task.event_id last).0 ids h e
add_event-Stopped a is_top task closing last list ids h e = e
add_event-Stopped a is_top task terminated last list ids h e = e

stop_event-Stopped :
    (a id : ℕ) (s : Scheduler)
    → contains a s.event_ids ≡ false
    → contains a (stop_event id s).1.event_ids ≡ false
unfolding stop_event
stop_event-Stopped a id s e = ground (arith, contains-erase a id s.event_ids)

run_due-Stopped :
    (a n : ℕ) (task : Event) (rest : List Event) (w : Run)
    → IsStopped a n w
    → IsStopped a n (run_due task rest w)
unfolding run_top
run_due-Stopped a n task rest w (e, k) =
    with_test (contains task.event_id w.scheduler.event_ids) refl
  where
    result : Bool → Option Event × Scheduler
    result t =
        let s' : Scheduler = record w.scheduler { event_list = rest } in
        if t
        then (some task, record s' { event_ids = erase task.event_id w.scheduler.event_ids })
        else (none, s')

    other : contains task.event_id w.scheduler.event_ids ≡ true → (task.event_id == a) ≡ false
    other active = ground (arith, ==_iff task.event_id a)

    with_test :
        (t : Bool)
        → contains task.event_id w.scheduler.event_ids ≡ t
        → (contains a (result t).1.event_ids ≡ false)
          × (runs_of a (with_event (result t).0 w.dispatched) ≡ n)
    with_test false active = (e, k)
    with_test true active = (
      contains-erase a task.event_id w.scheduler.event_ids e,
      ap (λ b. (if b then 1 else 0) + runs_of a w.dispatched) (other active) ∙ omega (arith, k),
    )

RunStep-IsStopped : (a n : ℕ) (w v : Run) → IsStopped a n w → RunStep a w v → IsStopped a n v
unfolding shut_down contains
RunStep-IsStopped a n w v (e, k) (added is_top task h) =
    let s = w.scheduler in
    (add_event-Stopped a is_top task s.thread_state s.last_event_id s.event_list s.event_ids h e, k)
RunStep-IsStopped a n w v (e, k) (stopped id) = (stop_event-Stopped a id w.scheduler e, k)
RunStep-IsStopped a n w v (e, k) (due before behind task h) =
    run_due-Stopped a n task (before ++ behind) w (e, k)
RunStep-IsStopped a n w v (e, k) shut = (refl, k)

RunReach-IsStopped : (a n : ℕ) (w v : Run) → IsStopped a n w → RunReach a w v → IsStopped a n v
RunReach-IsStopped a n w v h begin = h
RunReach-IsStopped a n w v h (step {u = x} r st) =
    RunStep-IsStopped a n x v (RunReach-IsStopped a n w x h r) st

stop_event-erases :
    (a : ℕ) (s : Scheduler) → a ≢ 0 → contains a (stop_event a s).1.event_ids ≡ false
unfolding stop_event
stop_event-erases a s h = ground (arith, contains-erase_self a s.event_ids, ==_iff a 0)

-- An event with an identifier other than 0 that was stopped, or was not active, does not run: behind `stopEvent`, and until an event
-- gets the identifier again, no event with the identifier is handed to the dispatcher, whatever is
-- added and stopped and whichever events come due.
pub stop_event-stops :
    (a : ℕ) (w v : Run)
    → a ≢ 0
    → RunReach a (record w { scheduler = (stop_event a w.scheduler).1 }) v
    → runs_of a v.dispatched ≡ runs_of a w.dispatched
stop_event-stops a w v h r =
    (RunReach-IsStopped a (runs_of a w.dispatched)
      (record w { scheduler = (stop_event a w.scheduler).1 }) v
      (stop_event-erases a w.scheduler h, refl) r).1
