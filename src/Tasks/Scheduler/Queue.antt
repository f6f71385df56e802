-- ===== src/Tasks/Scheduler/Queue.antt =====
-- src/scheduler.cpp: the order of the queue and the set of the active ids.
use mathlib.Core.Path.{subst}
use mathlib.Core.Bool.{false≢true}
use otxlinux.Prelude.{
  leb→le, ℕ, ◌≤◌, ◌≡◌, refl, ap, sym, ◌∙◌, inl, inr, Bool, true, false, List, [], ◌∷◌, arith, All,
  leb, ◌==◌, if◌then◌else◌, Bool-cases, ==_iff,
}
use otxlinux.Tasks.Task.{Task, is_running}
use otxlinux.Tasks.Scheduler.{
  Scheduler, has_id, erase_id, insert_id, push, add_event, stop_event, shutdown, time_out,
  time_out_at, next_event_id,
}

pub has_id-erase_id :
    (id other : ℕ) (ids : List ℕ)
    → has_id other (erase_id id ids) ≡ (if id == other then false else has_id other ids)
unfolding has_id erase_id
has_id-erase_id id other [] = ground arith
has_id-erase_id id other (i ∷ ids) = ground (arith, has_id-erase_id id other ids)

pub has_id-insert_id :
    (id other : ℕ) (ids : List ℕ)
    → has_id other (insert_id id ids) ≡ (if id == other then true else has_id other ids)
unfolding has_id insert_id
has_id-insert_id id other ids = elim (Bool-cases (has_id id ids)) [
  | inr new ↦ rw new
  | inl old ↦ rw old (elim (Bool-cases (id == other)) [
    | inl same ↦ rw same (ap (λ k. has_id k ids) (sym ((==_iff id other).0 same)) ∙ old)
    | inr differs ↦ rw differs
  ])
]

-- The tasks of a queue stand in the order of their times.
abbrev pub IsSorted : List Task → Type 0
IsSorted [] = Unit
IsSorted (t ∷ ts) = All (λ u. t.expiration ≤ u.expiration) ts × IsSorted ts

-- Some task of the queue has the id.
unfoldable pub queued : ℕ → List Task → Bool
queued id [] = false
queued id (t ∷ ts) = if t.event_id == id then true else queued id ts

pub queued-push :
    (id : ℕ) (t : Task) (ts : List Task)
    → queued id (push t ts) ≡ (if t.event_id == id then true else queued id ts)
unfolding queued push
queued-push id t [] = refl
queued-push id t (u ∷ us) = ground (arith, queued-push id t us)

-- The state of the scheduler is sound: the earliest task is first, and every active id belongs to a
-- task that still waits.
pub record IsSound (s : Scheduler) : Type 0 where
  pub sorted : IsSorted s.event_list
  pub active : (id : ℕ) → has_id id s.event_ids ≡ true → queued id s.event_list ≡ true

push-All :
    (n : ℕ) (t : Task) (ts : List Task)
    → n ≤ t.expiration
    → All (λ u. n ≤ u.expiration) ts
    → All (λ u. n ≤ u.expiration) (push t ts)
unfolding push
push-All n t [] le h = (le, tt)
push-All n t (u ∷ us) le h = ground (arith, push-All n t us le h.1)

All-mono :
    (m n : ℕ) (ts : List Task)
    → m ≤ n
    → All (λ u. n ≤ u.expiration) ts
    → All (λ u. m ≤ u.expiration) ts
All-mono m n [] le h = tt
All-mono m n (u ∷ us) le h = (omega arith, All-mono m n us le h.1)

pub push-IsSorted : (t : Task) (ts : List Task) → IsSorted ts → IsSorted (push t ts)
unfolding push
push-IsSorted t [] h = (tt, tt)
push-IsSorted t (u ∷ us) h = elim (Bool-cases (leb u.expiration t.expiration)) [
  | inl after ↦ rw after (push-All u.expiration t us (leb→le _ _ after) h.0, push-IsSorted t us h.1)
  | inr before ↦
      rw before ((ground arith, All-mono t.expiration u.expiration us (ground arith) h.0), h)
]

pub add_event-IsSound : (t : Task) (s : Scheduler) → IsSound s → IsSound (add_event t s).1
unfolding add_event
add_event-IsSound t s h =
    let id = if t.event_id == 0 then next_event_id s.last_event_id else t.event_id in
    elim (Bool-cases (is_running s.thread_state)) [
      | inr off ↦ rw off h
      | inl on ↦ rw on (record {
        sorted = push-IsSorted (record t { event_id = id }) s.event_list h.sorted;
        active = λ other e. ground (
          arith,
          has_id-insert_id id other s.event_ids,
          queued-push other (record t { event_id = id }) s.event_list,
          h.active other,
        );
      })
    ]

pub stop_event-IsSound : (id : ℕ) (s : Scheduler) → IsSound s → IsSound (stop_event id s).1
unfolding stop_event
stop_event-IsSound id s h = elim (Bool-cases (id == 0)) [
  | inl bad ↦ rw bad h
  | inr good ↦ rw good (elim (Bool-cases (has_id id s.event_ids)) [
    | inr no_such ↦ rw no_such h
    | inl found ↦ rw found (record {
      sorted = h.sorted;
      active = λ other e. h.active other (ground (arith, has_id-erase_id id other s.event_ids));
    })
  ])
]

pub shutdown-IsSound : (s : Scheduler) → IsSound (shutdown s)
unfolding shutdown has_id
shutdown-IsSound s = record { sorted = tt; active = λ id e. cc }

time_out_at-IsSound :
    (ts : List Task) (s : Scheduler) → s.event_list ≡ ts → IsSound s → IsSound (time_out_at ts s).1
unfolding time_out_at
time_out_at-IsSound [] s e h = h
time_out_at-IsSound (t ∷ ts) s e h = elim (Bool-cases (has_id t.event_id s.event_ids)) [
  | inl live ↦ rw live (record {
    sorted = rest;
    active = λ other a.
        unfold queued in ground (arith, has_id-erase_id t.event_id other s.event_ids, waits other);
  })
  | inr stopped ↦ rw stopped (record {
    sorted = rest;
    active = λ other a.
        unfold queued in
        elim (Bool-cases (t.event_id == other)) [
          | inl same ↦ absurd (
              false≢true
                (sym stopped ∙ ap (λ k. has_id k s.event_ids) ((==_iff _ other).0 same) ∙ a))
          | inr differs ↦ ground (arith, waits other)
        ];
  })
]
  where
    rest : IsSorted ts
    rest = (subst IsSorted e h.sorted).1

    waits : (other : ℕ) → has_id other s.event_ids ≡ true → queued other (t ∷ ts) ≡ true
    waits other a = subst (λ us. queued other us ≡ true) e (h.active other a)

pub time_out-IsSound : (s : Scheduler) → IsSound s → IsSound (time_out s).1
unfolding time_out
time_out-IsSound s h = time_out_at-IsSound s.event_list s refl h
