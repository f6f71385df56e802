-- ===== src/Tasks/Task.antt =====
-- src/tasks.h and src/scheduler.h: tasks. A task of the scheduler is a task with an event id; the
-- function of a task is a number that names it, or the function of Dispatcher::shutdown. Times count
-- milliseconds, and 0 is SYSTEM_TIME_ZERO.
use otxlinux.Prelude.{ℕ, ◌+◌, Bool, false, ltb, ◌==◌, if◌then◌else◌}

pub data Func : Type 0 where
  call : ℕ → Func
  terminate : Func

pub record Task : Type 0 where
  pub expiration : ℕ
  pub func : Func
  pub event_id : ℕ

-- ThreadState of src/enums.h.
pub data ThreadState : Type 0 where
  running closing terminated : ThreadState

unfoldable pub is_running : ThreadState → Bool
is_running running = Bool.true
is_running closing = false
is_running terminated = false

unfoldable pub create_task : Func → Task
create_task f = record { expiration = 0; func = f; event_id = 0 }

-- `createTask` with an expiration, and `createSchedulerTask`, at a reading of the clock.
unfoldable pub create_timed_task : ℕ → ℕ → Func → Task
create_timed_task now ms f = record { expiration = now + ms; func = f; event_id = 0 }

unfoldable pub set_dont_expire : Task → Task
set_dont_expire t = record t { expiration = 0 }

unfoldable pub has_expired : ℕ → Task → Bool
has_expired now t = if t.expiration == 0 then false else ltb t.expiration now
