-- ===== src/Tasks/Dispatcher.antt =====
-- src/tasks.cpp. Each function holds the mutex, so it is one step on the state; the effect of a task
-- on the game is not modelled.
pub mod Running
use otxlinux.Prelude.{
  ℕ, zero, suc, ◌+◌, ◌%◌, ◌^◌, Bool, true, false, List, [], ◌∷◌, ◌++◌, if◌then◌else◌, u64,
}
use otxlinux.Tasks.Task.{
  Task, Func, call, terminate, ThreadState, running, terminated, is_running, create_task,
  has_expired,
}

pub record Dispatcher : Type 0 where
  pub thread_state : ThreadState
  pub task_list : List Task
  pub dispatcher_cycle : ℕ

unfoldable pub add_task : Task → Bool → Dispatcher → Dispatcher
add_task t push_front d =
    if is_running d.thread_state
    then if push_front
      then record d { task_list = t ∷ d.task_list }
      else record d { task_list = d.task_list ++ t ∷ [] }
    else d

-- The task sets the state when it runs.
unfoldable pub shutdown : Dispatcher → Dispatcher
shutdown d = record d { task_list = d.task_list ++ create_task terminate ∷ [] }

-- The effect of the function of a task on the dispatcher.
unfoldable pub execute : Func → Dispatcher → Dispatcher
execute (call f) d = d
execute terminate d = record d { thread_state = terminated }

-- One round of `threadMain` at a reading of the clock: the task that ran, if any.
unfoldable pub run_front : ℕ → List Task → Dispatcher → List Task × Dispatcher
run_front now [] d = ([], d)
run_front now (t ∷ ts) d =
    let popped = record d { task_list = ts } in
    if has_expired now t then ([], popped) else (
      t ∷ [],
      execute t.func (record popped { dispatcher_cycle = u64 (d.dispatcher_cycle + 1) }),
    )

unfoldable pub is_terminated : ThreadState → Bool
is_terminated terminated = true
is_terminated running = false
is_terminated ThreadState.closing = false

-- At most `n` rounds, at one reading of the clock.
unfoldable pub thread_main : ℕ → ℕ → Dispatcher → List Task × Dispatcher
thread_main zero now d = ([], d)
thread_main (suc n) now d =
    let (ran, d1) = run_front now d.task_list d in
    let (rest, d2) = thread_main n now d1 in
    if is_terminated d.thread_state then ([], d) else (ran ++ rest, d2)
