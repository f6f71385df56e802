-- ===== src/Tasks/Scheduler.antt =====
-- src/scheduler.cpp. What a function does to the state it does while it holds the mutex, so it is one
-- step. The thread gives a task to the dispatcher after it has released the mutex, so that other steps
-- may come between: a step is about the taking of the task. The priority queue is a list with the earliest task first; among tasks of one time the newest is the last.
pub mod Queue
pub mod Delivery
use otxlinux.Prelude.{
  ℕ, ◌+◌, ◌%◌, ◌^◌, Bool, true, false, List, [], ◌∷◌, Option, none, some, leb, ◌==◌, if◌then◌else◌,
  u32,
}
use otxlinux.Tasks.Task.{Task, ThreadState, terminated, is_running, set_dont_expire}

pub record Scheduler : Type 0 where
  pub thread_state : ThreadState
  pub last_event_id : ℕ
  pub event_list : List Task
  pub event_ids : List ℕ

-- `eventIds.find` and `eventIds.erase` and `eventIds.insert` on the set of the active ids.
unfoldable pub has_id : ℕ → List ℕ → Bool
has_id id [] = false
has_id id (i ∷ ids) = if i == id then true else has_id id ids

unfoldable pub erase_id : ℕ → List ℕ → List ℕ
erase_id id [] = []
erase_id id (i ∷ ids) = let rest = erase_id id ids in if i == id then rest else i ∷ rest

unfoldable pub insert_id : ℕ → List ℕ → List ℕ
insert_id id ids = if has_id id ids then ids else id ∷ ids

-- `eventList.push`.
unfoldable pub push : Task → List Task → List Task
push t [] = t ∷ []
push t (u ∷ us) = if leb u.expiration t.expiration then u ∷ push t us else t ∷ u ∷ us

-- `++lastEventId`, which skips 0.
unfoldable pub next_event_id : ℕ → ℕ
next_event_id last = let id = u32 (last + 1) in if id == 0 then 1 else id

-- The event's id, and the new state. The signal to the thread has no effect on the state.
unfoldable pub add_event : Task → Scheduler → ℕ × Scheduler
add_event t s =
    let fresh = next_event_id s.last_event_id in
    let id = if t.event_id == 0 then fresh else t.event_id in
    let last = if t.event_id == 0 then fresh else s.last_event_id in
    if is_running s.thread_state
    then (
      id,
      record s {
        last_event_id = last;
        event_list = push (record t { event_id = id }) s.event_list;
        event_ids = insert_id id s.event_ids;
      },
    )
    else (0, s)

unfoldable pub stop_event : ℕ → Scheduler → Bool × Scheduler
stop_event id s =
    if id == 0
    then (false, s)
    else if has_id id s.event_ids
    then (true, record s { event_ids = erase_id id s.event_ids })
    else (false, s)

unfoldable pub shutdown : Scheduler → Scheduler
shutdown s = record s { thread_state = terminated; event_list = []; event_ids = [] }

-- The body of `threadMain` when the time of the first task is reached: what it takes for the
-- dispatcher. The thread waits for a time only on a queue with a task; on an empty queue C++ leaves
-- `top` undefined, and here nothing happens.
unfoldable pub time_out_at : List Task → Scheduler → Option Task × Scheduler
time_out_at [] s = (none, s)
time_out_at (t ∷ ts) s =
    if has_id t.event_id s.event_ids
    then (
      some (set_dont_expire t),
      record s { event_list = ts; event_ids = erase_id t.event_id s.event_ids },
    )
    else (none, record s { event_list = ts })

unfoldable pub time_out : Scheduler → Option Task × Scheduler
time_out s = time_out_at s.event_list s
