-- ===== src/Tasks.antt =====
-- `Task` and `Dispatcher` of source/tasks.h and source/tasks.cpp, over the states of
-- source/thread_holder_base.h. What a task does is a number, or the end of the dispatcher's thread.
use juggernaut_server.Base.{
  ℕ, ◌+◌, Bool, true, false, not, ◌&&◌, List, [], ◌∷◌, ◌++◌, ltb, ◌==◌, u64, if◌then◌else◌,
}
pub mod Waking
mod Examples

pub data ThreadState : Type 0 where
  running closing terminated : ThreadState

pub data Work : Type 0 where
  call : ℕ → Work
  end_thread : Work

-- An expiration of 0 is `SYSTEM_TIME_ZERO`.
pub record Task : Type 0 where
  pub expiration : ℕ
  pub work : Work

pub record Dispatcher : Type 0 where
  pub thread_state : ThreadState
  pub task_list : List Task
  pub dispatcher_cycle : ℕ

unfoldable pub has_expired : ℕ → Task → Bool
has_expired now task = not (task.expiration == 0) && ltb task.expiration now

abbrev pub no_tasks : List Task → Bool
no_tasks [] = true
no_tasks (task ∷ tasks) = false

-- `addTask` under its lock: whether it signals, and the dispatcher.
unfoldable pub add_task : Task → Bool → Dispatcher → Bool × Dispatcher
add_task task push_front d = elim d.thread_state [
  | running ↦ (
    no_tasks d.task_list,
    record d { task_list = if push_front then task ∷ d.task_list else d.task_list ++ task ∷ [] },
  )
  | _ ↦ (false, d)
]

-- `Dispatcher::shutdown`, which signals always.
unfoldable pub shutdown : Dispatcher → Dispatcher
shutdown d = record d {
  task_list = d.task_list ++ record { expiration = 0; work = end_thread } ∷ [];
}

-- `ThreadHolder::start` and `stop`.
unfoldable pub start_thread : Dispatcher → Dispatcher
start_thread d = record d { thread_state = running }

unfoldable pub stop : Dispatcher → Dispatcher
stop d = record d { thread_state = closing }

-- What is done with a task that was taken: whether it signals, and the dispatcher.
unfoldable pub do_work : Work → Dispatcher → Bool × Dispatcher
do_work (call f) d = (false, d)
do_work end_thread d = (true, record d { thread_state = terminated })

unfoldable pub run_task : ℕ → Task → Dispatcher → Bool × Dispatcher
unfolding has_expired do_work
run_task now task d =
    if has_expired now task
    then (false, d)
    else do_work task.work (record d { dispatcher_cycle = u64 (d.dispatcher_cycle + 1) })

-- The part of `threadMain`'s loop behind the wait, with the list of tasks.
unfoldable pub take_first : ℕ → List Task → Dispatcher → Bool × Dispatcher
unfolding run_task
take_first now [] d = (false, d)
take_first now (task ∷ tasks) d = run_task now task (record d { task_list = tasks })

-- Where the dispatcher's thread is: at the head of its loop, in the wait, or at its end.
pub data Place : Type 0 where
  at_head waiting ended : Place

-- One round of the loop up to the wait: a round without a wait is complete.
unfoldable pub enter_round : ℕ → Dispatcher → Place × (Bool × Dispatcher)
unfolding take_first
enter_round now d = elim d.thread_state [
  | terminated ↦ (ended, (false, d))
  | _ ↦
      if no_tasks d.task_list
      then (waiting, (false, d))
      else (at_head, take_first now d.task_list d)
]
