-- ===== src/Tasks/Scheduler/Delivery.antt =====
-- src/scheduler.cpp: which events reach the dispatcher.
use mathlib.Core.Bool.{false≢true}
use otxlinux.Prelude.{
  ℕ, zero, suc, ◌≡◌, refl, ap, sym, ◌∙◌, ◌≢◌, inl, inr, true, false, List, [], ◌∷◌, Option, none,
  some, arith, All, length, ◌==◌, if◌then◌else◌, Bool-cases,
}
use otxlinux.Tasks.Task.{Task, is_running, set_dont_expire}
use otxlinux.Tasks.Scheduler.{
  Scheduler, has_id, erase_id, add_event, stop_event, shutdown, time_out, time_out_at,
  next_event_id,
}
use otxlinux.Tasks.Scheduler.Queue.{
  has_id-erase_id, has_id-insert_id, queued, queued-push, IsSound, add_event-IsSound,
  stop_event-IsSound, time_out-IsSound, shutdown-IsSound,
}

-- What may happen to the scheduler, in any order.
pub data Op : Type 0 where
  adds : Task → Op
  stops : ℕ → Op
  fires shuts : Op

unfoldable pub step : Op → Scheduler → Option Task × Scheduler
step (adds t) s = (none, (add_event t s).1)
step (stops id) s = (none, (stop_event id s).1)
step fires s = time_out s
step shuts s = (none, shutdown s)

abbrev pub given_first : Option Task → List Task → List Task
given_first none tasks = tasks
given_first (some t) tasks = t ∷ tasks

-- The tasks that are given to the dispatcher, and the state at the end.
unfoldable pub run : List Op → Scheduler → List Task × Scheduler
run [] s = ([], s)
run (op ∷ ops) s =
    let (given, s1) = step op s in let (tasks, s2) = run ops s1 in (given_first given tasks, s2)

-- No event is added under the id.
abbrev pub IsQuiet : ℕ → List Op → Scheduler → Type 0
IsQuiet id [] s = Unit
IsQuiet id (adds t ∷ ops) s = ((add_event t s).0 ≢ id) × IsQuiet id ops (add_event t s).1
IsQuiet id (stops i ∷ ops) s = IsQuiet id ops (stop_event i s).1
IsQuiet id (fires ∷ ops) s = IsQuiet id ops (time_out s).1
IsQuiet id (shuts ∷ ops) s = IsQuiet id ops (shutdown s)

-- The id stands for no active event.
abbrev Inactive : ℕ → Scheduler → Type 0
Inactive id s = has_id id s.event_ids ≡ false

add_event-Inactive :
    (id : ℕ) (t : Task) (s : Scheduler)
    → (add_event t s).0 ≢ id
    → Inactive id s
    → Inactive id (add_event t s).1
unfolding add_event
add_event-Inactive id t s ne h =
    let new : ℕ = if t.event_id == 0 then next_event_id s.last_event_id else t.event_id in
    ground (arith, has_id-insert_id new id s.event_ids)

stop_event-Inactive : (i id : ℕ) (s : Scheduler) → Inactive id s → Inactive id (stop_event i s).1
unfolding stop_event
stop_event-Inactive i id s h = ground (arith, has_id-erase_id i id s.event_ids)

given_id : (u t : Task) → some (set_dont_expire u) ≡ some t → u.event_id ≡ t.event_id
unfolding set_dont_expire
given_id u t e = ground arith

time_out_at-Inactive :
    (id : ℕ) (ts : List Task) (s : Scheduler)
    → Inactive id s
    → Inactive id (time_out_at ts s).1
      × ((t : Task) → (time_out_at ts s).0 ≡ some t → t.event_id ≢ id)
unfolding time_out_at set_dont_expire
time_out_at-Inactive id [] s h = (h, λ t e. cc)
time_out_at-Inactive id (u ∷ us) s h = elim (Bool-cases (has_id u.event_id s.event_ids)) [
  | inr stopped ↦ rw stopped (h, λ t e. cc)
  | inl on ↦ rw on (
    ground (arith, has_id-erase_id u.event_id id s.event_ids),
    λ t e same.
        let id_of_u : u.event_id ≡ id = given_id u t e ∙ same in
        false≢true (sym h ∙ ap (λ k. has_id k s.event_ids) (sym id_of_u) ∙ on),
  )
]

time_out-Inactive :
    (id : ℕ) (s : Scheduler)
    → Inactive id s
    → Inactive id (time_out s).1 × ((t : Task) → (time_out s).0 ≡ some t → t.event_id ≢ id)
unfolding time_out
time_out-Inactive id s h = time_out_at-Inactive id s.event_list s h

given_first-All :
    (id : ℕ) (given : Option Task) (tasks : List Task)
    → ((t : Task) → given ≡ some t → t.event_id ≢ id)
    → All (λ t. t.event_id ≢ id) tasks
    → All (λ t. t.event_id ≢ id) (given_first given tasks)
given_first-All id none tasks h k = k
given_first-All id (some t) tasks h k = (h t refl, k)

stops_id : (id : ℕ) (s : Scheduler) → id ≢ 0 → has_id id (stop_event id s).1.event_ids ≡ false
unfolding stop_event
stops_id id s h = ground (arith, has_id-erase_id id id s.event_ids)

run_stopped :
    (id : ℕ) (ops : List Op) (s : Scheduler)
    → has_id id s.event_ids ≡ false
    → IsQuiet id ops s
    → All (λ t. t.event_id ≢ id) (run ops s).0
unfolding run step
run_stopped id [] s h quiet = tt
run_stopped id (adds t ∷ ops) s h quiet =
    run_stopped id ops _ (add_event-Inactive id t s quiet.0 h) quiet.1
run_stopped id (stops i ∷ ops) s h quiet = run_stopped id ops _ (stop_event-Inactive i id s h) quiet
run_stopped id (shuts ∷ ops) s h quiet = run_stopped id ops _ (unfold shutdown has_id in refl) quiet
run_stopped id (fires ∷ ops) s h quiet =
    let given = time_out-Inactive id s h in
    given_first-All id (time_out s).0 _ given.1 (run_stopped id ops (time_out s).1 given.0 quiet)

-- An event with an id other than 0 that is stopped, whatever the state, is not taken for the dispatcher by any operations
-- that come after, as long as none of them adds an event under its id.
pub run_after_stop :
    (id : ℕ) (ops : List Op) (s : Scheduler)
    → id ≢ 0
    → IsQuiet id ops (stop_event id s).1
    → All (λ t. t.event_id ≢ id) (run (stops id ∷ ops) s).0
unfolding run step
run_after_stop id ops s h quiet = run_stopped id ops (stop_event id s).1 (stops_id id s h) quiet

-- A scheduler that is sound stays so whatever operations come, in any order.
pub run-IsSound : (ops : List Op) (s : Scheduler) → IsSound s → IsSound (run ops s).1
unfolding run step
run-IsSound [] s h = h
run-IsSound (adds t ∷ ops) s h = run-IsSound ops (add_event t s).1 (add_event-IsSound t s h)
run-IsSound (stops i ∷ ops) s h = run-IsSound ops (stop_event i s).1 (stop_event-IsSound i s h)
run-IsSound (fires ∷ ops) s h = run-IsSound ops (time_out s).1 (time_out-IsSound s h)
run-IsSound (shuts ∷ ops) s h = run-IsSound ops (shutdown s) (shutdown-IsSound s)

-- Time outs until the queue is empty.
unfoldable pub drain : ℕ → Scheduler → List Task × Scheduler
drain zero s = ([], s)
drain (suc n) s =
    let (given, s1) = time_out s in let (tasks, s2) = drain n s1 in (given_first given tasks, s2)

-- The tasks of a queue whose events are active.
unfoldable pub live : List ℕ → List Task → List Task
live ids [] = []
live ids (t ∷ ts) = if has_id t.event_id ids then set_dont_expire t ∷ live ids ts else live ids ts

-- No two tasks have one id.
abbrev pub IsDistinct : List Task → Type 0
IsDistinct [] = Unit
IsDistinct (t ∷ ts) = All (λ u. t.event_id ≢ u.event_id) ts × IsDistinct ts

live-erase_id :
    (id : ℕ) (ids : List ℕ) (ts : List Task)
    → All (λ u. id ≢ u.event_id) ts
    → live (erase_id id ids) ts ≡ live ids ts
unfolding live
live-erase_id id ids [] h = refl
live-erase_id id ids (t ∷ ts) h =
    ground (arith, has_id-erase_id id t.event_id ids, live-erase_id id ids ts h.1)

-- The two outcomes of a time out at the first task.
module _ (t : Task) (ts : List Task) (s : Scheduler) (e : s.event_list ≡ t ∷ ts) where
  time_out_live :
      has_id t.event_id s.event_ids ≡ true
      → time_out s ≡ (
        some (set_dont_expire t),
        record s { event_list = ts; event_ids = erase_id t.event_id s.event_ids },
      )
  unfolding time_out time_out_at
  time_out_live on = ap (λ l. time_out_at l s) e ∙ rw on

  time_out_stopped :
      has_id t.event_id s.event_ids ≡ false → time_out s ≡ (none, record s { event_list = ts })
  unfolding time_out time_out_at
  time_out_stopped off = ap (λ l. time_out_at l s) e ∙ rw off

drain-suc :
    (n : ℕ) (s s1 : Scheduler) (given : Option Task)
    → time_out s ≡ (given, s1)
    → drain (suc n) s ≡ (given_first given (drain n s1).0, (drain n s1).1)
unfolding drain
drain-suc n s s1 given e = ap (λ r. (given_first r.0 (drain n r.1).0, (drain n r.1).1)) e

-- When the tasks of the queue have distinct ids, time outs until it is empty give the dispatcher each
-- active event once, in the order of the queue, and none that was stopped.
pub drain_lem :
    (ts : List Task) (s : Scheduler)
    → s.event_list ≡ ts
    → IsDistinct ts
    → ((drain (length ts) s).0 ≡ live s.event_ids ts) × ((drain (length ts) s).1.event_list ≡ [])
unfolding live
drain_lem [] s e h = unfold drain in (refl, e)
drain_lem (t ∷ ts) s e h = elim (Bool-cases (has_id t.event_id s.event_ids)) [
  | inl on ↦
      let rest =
        drain_lem ts (record s { event_list = ts; event_ids = erase_id t.event_id s.event_ids })
          refl h.1 in
      rw (drain-suc (length ts) s _ _ (time_out_live t ts s e on), on)
        (
          ap (◌∷◌ (set_dont_expire t)) (rest.0 ∙ live-erase_id t.event_id s.event_ids ts h.0),
          rest.1,
        )
  | inr off ↦
      rw (drain-suc (length ts) s _ _ (time_out_stopped t ts s e off), off)
        (drain_lem ts (record s { event_list = ts }) refl h.1)
]

-- An event that is added to a running scheduler gets an id other than 0, is active under it and waits
-- in the queue under it.
pub add_event_lem :
    (t : Task) (s : Scheduler)
    → is_running s.thread_state ≡ true
    → let r = add_event t s in
      (r.0 ≢ 0) × (has_id r.0 r.1.event_ids ≡ true) × (queued r.0 r.1.event_list ≡ true)
unfolding add_event next_event_id
add_event_lem t s on =
    let new : ℕ = if t.event_id == 0 then next_event_id s.last_event_id else t.event_id in
    (
      λ e. ground arith,
      ground (arith, has_id-insert_id new new s.event_ids),
      ground (arith, queued-push new (record t { event_id = new }) s.event_list),
    )
