-- ===== src/DatabaseTasks/Running.antt =====
-- The thread of source/databasetasks.cpp, those that add tasks, and the one that shuts it down: tasks
-- are taken under the lock and run outside it, by the thread and by `flush`, which may interleave.
use juggernaut_server.Database.Interface.{DatabaseOps}
use juggernaut_server.Base.{
  ℕ, ◌+◌, ◌≡◌, refl, ap, subst, Bool, true, false, List, [], ◌∷◌, ◌++◌, Option, none, some, ◌==◌,
  if◌then◌else◌, arith,
}
use juggernaut_server.Tasks.{ThreadState, running, closing, terminated}
use juggernaut_server.Database.{DbResult}
use juggernaut_server.DatabaseTasks.{
  DatabaseTask, BoundCallback, DatabaseTasks, add_database_task, take_front, bound, stop_tasks,
  run_database_task,
}

-- How often a task wants a callback, and how often it is among the bound ones.
abbrev pub wants : ℕ → Option ℕ → ℕ
wants c none = 0
wants c (some d) = if d == c then 1 else 0

-- The sum of a weight over tasks: with the weight 1 for one task and 0 for the others, how often that
-- one is among them.
abbrev pub total : (DatabaseTask → ℕ) → List DatabaseTask → ℕ
total f [] = 0
total f (task ∷ tasks) = f task + total f tasks

abbrev pub in_hand : (DatabaseTask → ℕ) → Option DatabaseTask → ℕ
in_hand f none = 0
in_hand f (some task) = f task

abbrev pub called : ℕ → List BoundCallback → ℕ
called c [] = 0
called c (b ∷ calls) = (if b.callback == c then 1 else 0) + called c calls

-- The tasks that the thread and `flush` have taken and not yet run, what the dispatcher was given, the
-- tasks that were accepted, and those that `runTask` has run.
pub record TasksWorld (W : Type 0) : Type 0 where
  pub queue : DatabaseTasks
  pub database : W
  pub thread_hand : Option DatabaseTask
  pub flush_hand : Option DatabaseTask
  pub dispatched : List BoundCallback
  pub accepted : List DatabaseTask
  pub done : List DatabaseTask

abbrev pub accepting : ThreadState → DatabaseTask → List DatabaseTask → List DatabaseTask
accepting running task tasks = task ∷ tasks
accepting closing task tasks = tasks
accepting terminated task tasks = tasks

total-append :
    (f : DatabaseTask → ℕ) (xs ys : List DatabaseTask)
    → total f (xs ++ ys) ≡ total f xs + total f ys
total-append f [] ys = omega arith
total-append f (x ∷ xs) ys = omega (arith, total-append f xs ys)

called-append :
    (c : ℕ) (xs ys : List BoundCallback) → called c (xs ++ ys) ≡ called c xs + called c ys
called-append c [] ys = omega arith
called-append c (x ∷ xs) ys = omega (arith, called-append c xs ys)

called-bound :
    (c : ℕ) (o : Option ℕ) (r : Option DbResult) (success : Bool)
    → called c (bound o r success) ≡ wants c o
unfolding bound
called-bound c none r success = refl
called-bound c (some d) r success = omega arith

module _ {W : Type 0} (db : DatabaseOps W) where
  pub data TasksStep (s : TasksWorld W) : TasksWorld W → Type 0 where
    added :
        (task : DatabaseTask)
        → TasksStep s (record s {
          queue = (add_database_task task s.queue).1;
          accepted = accepting s.queue.thread_state task s.accepted;
        })
    taken :
        s.thread_hand ≡ none
        → TasksStep s
            (record s { queue = (take_front s.queue).1; thread_hand = (take_front s.queue).0 })
    flush_taken :
        s.flush_hand ≡ none
        → TasksStep s
            (record s { queue = (take_front s.queue).1; flush_hand = (take_front s.queue).0 })
    ran :
        (task : DatabaseTask) (calls : List BoundCallback) (w : W)
        → s.thread_hand ≡ some task
        → run_database_task db task s.database ≡ some (calls, w)
        → TasksStep s (record s {
          database = w;
          thread_hand = none;
          dispatched = s.dispatched ++ calls;
          done = task ∷ s.done;
        })
    flush_ran :
        (task : DatabaseTask) (calls : List BoundCallback) (w : W)
        → s.flush_hand ≡ some task
        → run_database_task db task s.database ≡ some (calls, w)
        → TasksStep s (record s {
          database = w;
          flush_hand = none;
          dispatched = s.dispatched ++ calls;
          done = task ∷ s.done;
        })
    stopped : TasksStep s (record s { queue = stop_tasks s.queue })

  pub data TasksReach (s : TasksWorld W) : TasksWorld W → Type 0 where
    here : TasksReach s s
    step : {t u : TasksWorld W} → TasksReach s t → TasksStep t u → TasksReach s u

  -- Every accepted task is queued, in a hand, or done, and the callbacks of the done ones, and no
  -- others, were given to the dispatcher.
  abbrev pub Balanced : (DatabaseTask → ℕ) → ℕ → TasksWorld W → Type 0
  Balanced f c s =
      (total f s.accepted
        ≡ total f s.done
          + (in_hand f s.thread_hand + (in_hand f s.flush_hand + total f s.queue.tasks)))
      × (called c s.dispatched ≡ total (λ task. wants c task.callback) s.done)

  -- The outcomes of `runTask` that give the dispatcher the task's callback.
  abbrev Gives : ℕ → DatabaseTask → Option (List BoundCallback × W) → Type 0
  Gives c task none = Unit
  Gives c task (some (calls, w)) = called c calls ≡ wants c task.callback

  run-Gives : (c : ℕ) (task : DatabaseTask) (w : W) → Gives c task (run_database_task db task w)
  unfolding run_database_task
  run-Gives c task w =
      with_answers task.store (db.store_query task.query w) (db.execute_query task.query w)
    where
      with_answers :
          (store : Bool) (stored : Option (Option DbResult × W)) (executed : Option (Bool × W))
          → Gives c task (elim store [
            | true ↦ elim stored [
              | none ↦ none
              | some (result, w') ↦ some (bound task.callback result true, w')
            ]
            | false ↦ elim executed [
              | none ↦ none
              | some (success, w') ↦ some (bound task.callback none success, w')
            ]
          ])
      with_answers true none executed = tt
      with_answers true (some (result, w')) executed = called-bound c task.callback result true
      with_answers false stored none = tt
      with_answers false stored (some (success, w')) = called-bound c task.callback none success

  added-Balanced :
      (f : DatabaseTask → ℕ) (task : DatabaseTask) (t : ThreadState) (tasks : List DatabaseTask)
      (accepted : List DatabaseTask)
      → let d : DatabaseTasks = record { thread_state = t; tasks = tasks } in
        total f (accepting t task accepted) + total f tasks
        ≡ total f (add_database_task task d).1.tasks + total f accepted
  unfolding add_database_task
  added-Balanced f task running tasks accepted = omega (arith, total-append f tasks (task ∷ []))
  added-Balanced f task closing tasks accepted = omega arith
  added-Balanced f task terminated tasks accepted = omega arith

  front-total :
      (f : DatabaseTask → ℕ) (t : ThreadState) (tasks : List DatabaseTask)
      → let d : DatabaseTasks = record { thread_state = t; tasks = tasks } in
        total f tasks ≡ in_hand f (take_front d).0 + total f (take_front d).1.tasks
  unfolding take_front
  front-total f t [] = refl
  front-total f t (task ∷ tasks) = refl

  ran-called :
      (c : ℕ) (task : DatabaseTask) (calls : List BoundCallback) (w : W) (s : TasksWorld W)
      → run_database_task db task s.database ≡ some (calls, w)
      → called c s.dispatched ≡ total (λ t. wants c t.callback) s.done
      → called c (s.dispatched ++ calls)
        ≡ wants c task.callback + total (λ t. wants c t.callback) s.done
  ran-called c task calls w s r h =
      let given = subst (Gives c task) r (run-Gives c task s.database) in
      omega (arith, h, given, called-append c s.dispatched calls)

  TasksStep-Balanced :
      (f : DatabaseTask → ℕ) (c : ℕ) (s u : TasksWorld W)
      → Balanced f c s
      → TasksStep s u
      → Balanced f c u
  unfolding stop_tasks
  TasksStep-Balanced f c s u (h, k) (added task) =
      (omega (arith, h, added-Balanced f task s.queue.thread_state s.queue.tasks s.accepted), k)
  TasksStep-Balanced f c s u (h, k) (taken e) =
      (omega (arith, h, ap (in_hand f) e, front-total f s.queue.thread_state s.queue.tasks), k)
  TasksStep-Balanced f c s u (h, k) (flush_taken e) =
      (omega (arith, h, ap (in_hand f) e, front-total f s.queue.thread_state s.queue.tasks), k)
  TasksStep-Balanced f c s u (h, k) (ran task calls w e r) =
      (omega (arith, h, ap (in_hand f) e), ran-called c task calls w s r k)
  TasksStep-Balanced f c s u (h, k) (flush_ran task calls w e r) =
      (omega (arith, h, ap (in_hand f) e), ran-called c task calls w s r k)
  TasksStep-Balanced f c s u h stopped = h

  -- In every interleaving of added tasks, the thread, `flush` and shutdown, from a queue that is so:
  -- whichever tasks are counted, with a callback or without, the accepted ones are as many as those
  -- that `runTask` has run, those that were taken and are not run yet, and those that are queued, so
  -- that no task is lost and none is run twice; and each callback was given to the dispatcher as often
  -- as the tasks that have run want it.
  pub TasksReach-Balanced :
      (f : DatabaseTask → ℕ) (c : ℕ) (s u : TasksWorld W)
      → Balanced f c s
      → TasksReach s u
      → Balanced f c u
  TasksReach-Balanced f c s u h here = h
  TasksReach-Balanced f c s u h (step {t} r st) =
      TasksStep-Balanced f c t u (TasksReach-Balanced f c s t h r) st
