-- ===== src/Tasks/Examples.antt =====
-- The dispatcher's thread at a concrete sequence of steps.
use juggernaut_server.Base.{refl, false, [], ◌∷◌}
use juggernaut_server.Tasks.{
  Task, call, Dispatcher, running, add_task, enter_round, at_head, waiting,
}
use juggernaut_server.Tasks.Waking.{
  Threads, Awaited, ThreadReach, still, further, adding, turning, ThreadReach-Awaited,
}

abbrev idle : Dispatcher
idle = record { thread_state = running; task_list = []; dispatcher_cycle = 0 }

abbrev task : Task
task = record { expiration = 0; work = call 7 }

abbrev begun : Threads
begun = record { dispatcher = idle; place = at_head; signals = 0 }

abbrev with_task : Threads
with_task = record {
  dispatcher = record idle { task_list = task ∷ [] };
  place = waiting;
  signals = 1;
}

-- The thread waits, and a task is added.
task_while_waiting : ThreadReach begun with_task
unfolding add_task enter_round
task_while_waiting = further (further still (turning 0 refl)) (adding task false)

ThreadReach-Awaited_example : Awaited with_task
ThreadReach-Awaited_example =
    ThreadReach-Awaited begun with_task (λ h e. absurd (cc)) task_while_waiting
