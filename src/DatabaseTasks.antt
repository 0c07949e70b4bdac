-- ===== src/DatabaseTasks.antt =====
-- `DatabaseTasks` of source/databasetasks.h and source/databasetasks.cpp: a queue of queries that a
-- thread runs, over the operations of a database. A callback is a number.
use juggernaut_server.Database.Interface.{DatabaseOps}
use juggernaut_server.Base.{ℕ, Bool, true, false, List, [], ◌∷◌, ◌++◌, Option, none, some}
use juggernaut_server.Tasks.{ThreadState, running, closing, terminated}
use juggernaut_server.Database.{Text, DbResult}
pub mod Running
mod Examples

pub record DatabaseTask : Type 0 where
  pub query : Text
  pub callback : Option ℕ
  pub store : Bool

-- A task of the dispatcher: the callback, bound to its arguments.
pub record BoundCallback : Type 0 where
  pub callback : ℕ
  pub result : Option DbResult
  pub success : Bool

pub record DatabaseTasks : Type 0 where
  pub thread_state : ThreadState
  pub tasks : List DatabaseTask

unfoldable pub is_empty : List DatabaseTask → Bool
is_empty [] = true
is_empty (task ∷ tasks) = false

-- `addTask`: whether it signals, and the queue.
unfoldable pub add_database_task : DatabaseTask → DatabaseTasks → Bool × DatabaseTasks
unfolding is_empty
add_database_task task d = elim d.thread_state [
  | running ↦ (is_empty d.tasks, record d { tasks = d.tasks ++ task ∷ [] })
  | _ ↦ (false, d)
]

-- The part of `threadMain` and of `flush` under the lock.
unfoldable pub take_front : DatabaseTasks → Option DatabaseTask × DatabaseTasks
take_front d = elim d.tasks [
  | [] ↦ (none, d)
  | task ∷ tasks ↦ (some task, record d { tasks = tasks })
]

unfoldable pub bound : Option ℕ → Option DbResult → Bool → List BoundCallback
bound none result success = []
bound (some c) result success = record { callback = c; result = result; success = success } ∷ []

-- `shutdown` under its lock.
unfoldable pub stop_tasks : DatabaseTasks → DatabaseTasks
stop_tasks d = record d { thread_state = terminated }

module _ {W : Type 0} (db : DatabaseOps W) where
  -- `runTask`: the tasks that it adds to the dispatcher.
  unfoldable pub run_database_task : DatabaseTask → W → Option (List BoundCallback × W)
  unfolding bound
  run_database_task task w = elim task.store [
    | true ↦ elim (db.store_query task.query w) [
      | none ↦ none
      | some (result, w') ↦ some (bound task.callback result true, w')
    ]
    | false ↦ elim (db.execute_query task.query w) [
      | none ↦ none
      | some (success, w') ↦ some (bound task.callback none success, w')
    ]
  ]
