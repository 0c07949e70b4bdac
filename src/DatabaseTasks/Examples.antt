-- ===== src/DatabaseTasks/Examples.antt =====
-- The queue of queries on concrete tasks, over a database that counts its queries.
use juggernaut_server.Database.Interface.{DatabaseOps}
use juggernaut_server.Base.{ℕ, ◌+◌, refl, true, false, [], ◌∷◌, none, some, codes}
use juggernaut_server.Tasks.{running}
use juggernaut_server.DatabaseTasks.{
  DatabaseTask, add_database_task, take_front, bound, run_database_task,
}
use juggernaut_server.DatabaseTasks.Running.{
  TasksWorld, TasksReach, Balanced, here, step, added, taken, ran, TasksReach-Balanced,
}

abbrev counting : DatabaseOps ℕ
counting = record {
  store_query = λ query n. some (none, n + 1);
  execute_query = λ query n. some (true, n + 1);
  escape_string = λ s. some s;
}

abbrev insertion : DatabaseTask
insertion = record { query = codes "INSERT"; callback = some 3; store = false }

abbrev idle : TasksWorld ℕ
idle = record {
  queue = record { thread_state = running; tasks = [] };
  database = 0;
  thread_hand = none;
  flush_hand = none;
  dispatched = [];
  accepted = [];
  done = [];
}

abbrev done : TasksWorld ℕ
done = record idle {
  database = 1;
  dispatched = record { callback = 3; result = none; success = true } ∷ [];
  accepted = insertion ∷ [];
  done = insertion ∷ [];
}

done-reached : TasksReach counting idle done
unfolding add_database_task take_front run_database_task bound
done-reached =
    step (step (step here (added insertion)) (taken refl))
      (ran insertion (record { callback = 3; result = none; success = true } ∷ []) 1 refl refl)

TasksReach-Balanced_example : Balanced counting (λ task. 1) 3 done
TasksReach-Balanced_example =
    TasksReach-Balanced counting (λ task. 1) 3 idle done (refl, refl) done-reached
