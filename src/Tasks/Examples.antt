-- ===== src/Tasks/Examples.antt =====
-- The theorems on the scheduler and the dispatcher at concrete inputs.
use otxlinux.Prelude.{◌≡◌, refl, ◌≢◌, true, [], ◌∷◌, ◌++◌, arith, All}
use otxlinux.Tasks.Task.{Task, call, terminate, running, terminated, is_running, create_task}
use otxlinux.Tasks.Scheduler.{Scheduler, has_id, add_event, stop_event, next_event_id}
use otxlinux.Tasks.Scheduler.Queue.{IsSound, queued}
use otxlinux.Tasks.Scheduler.Delivery.{
  adds, stops, fires, shuts, run, IsQuiet, run_after_stop, run-IsSound, drain, live, drain_lem,
}
use otxlinux.Tasks.Dispatcher.{thread_main, add_task}
use otxlinux.Tasks.Dispatcher.Running.{due, loaded, thread_main-shutdown}

abbrev save : Task
save = record { expiration = 500; func = call 1; event_id = 3 }

abbrev decay : Task
decay = record { expiration = 900; func = call 2; event_id = 4 }

abbrev walk : Task
walk = record { expiration = 700; func = call 3; event_id = 0 }

abbrev both : Scheduler
both = record {
  thread_state = running;
  last_event_id = 4;
  event_list = save ∷ decay ∷ [];
  event_ids = 4 ∷ 3 ∷ [];
}

both-IsSound : IsSound both
unfolding has_id queued
both-IsSound = record { sorted = ((omega arith, tt), (tt, tt)); active = λ id e. ground arith }

run-IsSound_example : IsSound (run (adds walk ∷ stops 3 ∷ fires ∷ shuts ∷ []) both).1
run-IsSound_example = run-IsSound (adds walk ∷ stops 3 ∷ fires ∷ shuts ∷ []) both both-IsSound

quiet : IsQuiet 3 (adds walk ∷ fires ∷ fires ∷ []) (stop_event 3 both).1
unfolding add_event stop_event has_id is_running next_event_id
quiet = ((λ e. omega arith), tt)

run_after_stop_example :
    All (λ t. t.event_id ≢ 3) (run (stops 3 ∷ adds walk ∷ fires ∷ fires ∷ []) both).0
run_after_stop_example =
    run_after_stop 3 (adds walk ∷ fires ∷ fires ∷ []) both (λ e. omega arith) quiet

drain_lem_example :
    ((drain 2 both).0 ≡ live (4 ∷ 3 ∷ []) (save ∷ decay ∷ [])) × ((drain 2 both).1.event_list ≡ [])
drain_lem_example = drain_lem (save ∷ decay ∷ []) both refl (((λ e. omega arith), tt), (tt, tt))

both_runs : is_running both.thread_state ≡ true
unfolding is_running
both_runs = refl

thread_main-shutdown_example :
    let r = thread_main 3 600 (otxlinux.Tasks.Dispatcher.shutdown (loaded (save ∷ decay ∷ []) 0)) in
    (r.0 ≡ due 600 (save ∷ decay ∷ []) ++ create_task terminate ∷ [])
    × (r.1.task_list ≡ [])
    × (r.1.thread_state ≡ terminated)
thread_main-shutdown_example =
    thread_main-shutdown 600 (save ∷ decay ∷ []) 0 (omega arith) ((1, refl), ((2, refl), tt))
