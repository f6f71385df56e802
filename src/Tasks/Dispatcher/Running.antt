-- ===== src/Tasks/Dispatcher/Running.antt =====
-- src/tasks.cpp: what the dispatcher runs, and in which order.
use native.Mathlib.Nat.{zero-add, add-zero, mod-eq_of_lt, suc-add}
use otxlinux.Prelude.{
  ℕ, suc, ◌+◌, ◌^◌, ◌<◌, ◌≡◌, refl, inl, inr, Bool, true, false, List, [], ◌∷◌, ◌++◌, arith, All,
  length, Bool-cases, if◌then◌else◌, u64,
}
use otxlinux.Tasks.Task.{
  Task, Func, call, terminate, running, terminated, is_running, create_task, has_expired,
}
use otxlinux.Tasks.Dispatcher.{
  Dispatcher, add_task, shutdown, execute, run_front, is_terminated, thread_main,
}

-- The tasks that have not expired.
unfoldable pub due : ℕ → List Task → List Task
due now [] = []
due now (t ∷ ts) = if has_expired now t then due now ts else t ∷ due now ts

-- The task does not end the thread.
abbrev pub IsCall : Task → Type 0
IsCall t = (f : ℕ) × (t.func ≡ call f)

execute-call : (f : Func) (d : Dispatcher) → ((k : ℕ) × (f ≡ call k)) → execute f d ≡ d
unfolding execute
execute-call (call k) d h = refl
execute-call terminate d h = cc

-- A dispatcher that runs, with these tasks and this count of tasks.
abbrev pub loaded : List Task → ℕ → Dispatcher
loaded ts c = record { thread_state = running; task_list = ts; dispatcher_cycle = c }

-- One round, for a task that has expired and for one that is run.
module _ (n now c : ℕ) (t : Task) (ts : List Task) where
  round_expired :
      has_expired now t ≡ true
      → thread_main (suc n) now (loaded (t ∷ ts) c) ≡ thread_main n now (loaded ts c)
  unfolding thread_main run_front is_terminated
  round_expired old = rw old

  round_call :
      has_expired now t ≡ false
      → IsCall t
      → thread_main (suc n) now (loaded (t ∷ ts) c) ≡ (
        t ∷ (thread_main n now (loaded ts (u64 (c + 1)))).0,
        (thread_main n now (loaded ts (u64 (c + 1)))).1,
      )
  unfolding thread_main run_front is_terminated
  round_call due h = rw (due, execute-call t.func (loaded ts (u64 (c + 1))) h)

-- The dispatcher runs what has not expired, first come first served, and goes on with what is behind.
pub thread_main_calls :
    (now : ℕ) (behind ts : List Task) (n c : ℕ)
    → c < 2 ^ 64
    → All IsCall ts
    → let rest = thread_main n now (loaded behind (u64 (c + length (due now ts)))) in
      thread_main (length ts + n) now (loaded (ts ++ behind) c) ≡ (due now ts ++ rest.0, rest.1)
unfolding due
thread_main_calls now behind [] n c small h = rw (zero-add, add-zero, mod-eq_of_lt small)
thread_main_calls now behind (t ∷ ts) n c small h =
    rw (suc-add (length ts) n) (elim (Bool-cases (has_expired now t)) [
      | inl old ↦
          rw (round_expired (length ts + n) now c t (ts ++ behind) old, old)
            (thread_main_calls now behind ts n c small h.1)
      | inr fresh ↦ rw (
        round_call (length ts + n) now c t (ts ++ behind) fresh h.0,
        fresh,
        thread_main_calls now behind ts n (u64 (c + 1)) (omega arith) h.1,
        count c (length (due now ts)),
      )
    ])
  where
    count : (c k : ℕ) → u64 (u64 (c + 1) + k) ≡ u64 (c + suc k)
    count c k = omega arith

-- After `shutdown` of a dispatcher that runs, with a count of tasks that fits 64 bits, and whose tasks
-- do not end the thread, one round for
-- each task and one more run the tasks that have not expired, in their order, and end the thread with
-- an empty list.
pub thread_main-shutdown :
    (now : ℕ) (ts : List Task) (c : ℕ)
    → c < 2 ^ 64
    → All IsCall ts
    → let r = thread_main (length ts + 1) now (shutdown (loaded ts c)) in
      (r.0 ≡ due now ts ++ create_task terminate ∷ [])
      × (r.1.task_list ≡ [])
      × (r.1.thread_state ≡ terminated)
unfolding shutdown
thread_main-shutdown now ts c small h =
    rw (thread_main_calls now (create_task terminate ∷ []) ts 1 c small h) (
      unfold thread_main run_front is_terminated has_expired create_task execute in
      (refl, refl, refl))

pub add_task_terminated :
    (t : Task) (front : Bool) (d : Dispatcher)
    → d.thread_state ≡ terminated
    → add_task t front d ≡ d
unfolding add_task is_running
add_task_terminated t front d e = ground arith
