-- ===== src/Scheduler.antt =====
-- `Scheduler` of source/scheduler.h and source/scheduler.cpp. The queue of events is a list; which of
-- several events with the earliest time `std::priority_queue` has at its top is not determined, and is
-- an argument, as is whether a new event is the top.
use juggernaut_server.Base.{
  ℕ, ◌+◌, Bool, true, false, ◌||◌, List, [], ◌∷◌, ◌++◌, Option, none, some, u32, ◌==◌,
  if◌then◌else◌,
}
use juggernaut_server.Tasks.{ThreadState, running, closing, terminated}
pub mod Ids
pub mod Stopping
pub mod Stranding
mod Examples

-- `SchedulerTask`: its time, its identifier (0 if it has none yet) and what it does.
pub record Event : Type 0 where
  pub cycle : ℕ
  pub event_id : ℕ
  pub work : ℕ

pub record Scheduler : Type 0 where
  pub thread_state : ThreadState
  pub last_event_id : ℕ
  pub event_list : List Event
  pub event_ids : List ℕ

-- `std::unordered_set`.
unfoldable pub contains : ℕ → List ℕ → Bool
contains a [] = false
contains a (x ∷ xs) = x == a || contains a xs

unfoldable pub insert : ℕ → List ℕ → List ℕ
unfolding contains
insert a xs = if contains a xs then xs else a ∷ xs

unfoldable pub erase : ℕ → List ℕ → List ℕ
erase a [] = []
erase a (x ∷ xs) = let rest = erase a xs in if x == a then rest else x ∷ rest

-- `if (++lastEventId == 0) lastEventId = 1`.
unfoldable pub next_id : ℕ → ℕ
next_id last = if u32 (last + 1) == 0 then 1 else u32 (last + 1)

-- The identifier of a new event, and the last one that was generated.
unfoldable pub choose_id : ℕ → ℕ → ℕ × ℕ
unfolding next_id
choose_id event_id last = if event_id == 0 then (next_id last, next_id last) else (event_id, last)

-- `addEvent`: the identifier, whether it signals, and the scheduler.
unfoldable pub add_event : Bool → Event → Scheduler → ℕ × (Bool × Scheduler)
unfolding choose_id insert
add_event is_top task s = elim s.thread_state [
  | running ↦
      let (event_id, last) = choose_id task.event_id s.last_event_id in
      (
        event_id,
        (
          is_top,
          record {
            thread_state = running;
            last_event_id = last;
            event_list = record task { event_id = event_id } ∷ s.event_list;
            event_ids = insert event_id s.event_ids;
          },
        ),
      )
  | _ ↦ (0, (false, s))
]

unfoldable pub stop_event : ℕ → Scheduler → Bool × Scheduler
unfolding contains erase
stop_event event_id s =
    if event_id == 0
    then (false, s)
    else (if contains event_id s.event_ids
        then (true, record s { event_ids = erase event_id s.event_ids })
        else (false, s))

-- The thread when the time of the top event has come: the event, with the rest of the queue, and
-- whether it is handed to the dispatcher.
unfoldable pub run_top : Event → List Event → Scheduler → Option Event × Scheduler
unfolding contains erase
run_top task rest s =
    let s' : Scheduler = record s { event_list = rest } in
    if contains task.event_id s.event_ids
    then (some task, record s' { event_ids = erase task.event_id s.event_ids })
    else (none, s')

-- `shutdown`, without its signal.
unfoldable pub shut_down : Scheduler → Scheduler
shut_down s = record s { thread_state = terminated; event_list = []; event_ids = [] }
