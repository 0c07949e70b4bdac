-- ===== src/Scheduler/Examples.antt =====
-- The scheduler of source/scheduler.cpp on concrete events.
use juggernaut_server.Base.{ℕ, ◌-◌, ◌^◌, ◌≡◌, refl, true, [], ◌∷◌, arith}
use juggernaut_server.Tasks.{running}
use juggernaut_server.Scheduler.{Event, Scheduler, add_event, stop_event, run_top}
use juggernaut_server.Scheduler.Stranding.{
  ThreadsReach, here, at_work, stranded, IsStranded, shutdown-strands,
}
use juggernaut_server.Scheduler.Stopping.{
  Run, RunReach, runs_of, run_due, begin, step, due, stop_event-stops,
}

abbrev event : ℕ → ℕ → Event
event cycle id = record { cycle = cycle; event_id = id; work = 0 }

-- Two events, of which the first is stopped; then both come due.
abbrev two_events : Scheduler
two_events = record {
  thread_state = running;
  last_event_id = 8;
  event_list = event 5 7 ∷ event 6 8 ∷ [];
  event_ids = 7 ∷ 8 ∷ [];
}

abbrev first_run : Run
first_run = record { scheduler = two_events; dispatched = [] }

abbrev stopped_run : Run
stopped_run = record { scheduler = (stop_event 7 two_events).1; dispatched = [] }

abbrev due_run : Run
due_run = run_due (event 5 7) (event 6 8 ∷ []) stopped_run

abbrev last_run : Run
last_run = run_due (event 6 8) [] due_run

last_run-dispatched : last_run.dispatched ≡ event 6 8 ∷ []
unfolding run_top stop_event
last_run-dispatched = refl

-- An event that is added behind the last identifier.
add_event-wraps :
    (add_event true (event 5 0) (record two_events { last_event_id = 2 ^ 32 - 1 })).0 ≡ 1
unfolding add_event
add_event-wraps = refl

last_run-reached : RunReach 7 stopped_run last_run
unfolding run_top stop_event
last_run-reached =
    step (step begin (due [] (event 6 8 ∷ []) (event 5 7) refl)) (due [] [] (event 6 8) refl)

stop_event-stops_example : runs_of 7 last_run.dispatched ≡ 0
stop_event-stops_example = stop_event-stops 7 first_run last_run (omega arith) last_run-reached

-- The two events, and a shutdown behind which the thread waits.
shutdown-strands_example :
    ThreadsReach (at_work two_events) (stranded two_events) × IsStranded (stranded two_events)
shutdown-strands_example = shutdown-strands two_events (stranded two_events) refl here
