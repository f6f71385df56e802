-- ===== src/Access/WaitingList/Turn.antt =====
-- src/waitlist.cpp, WaitingList::clientLogin behind its early returns: whose turn it is.
use mathlib.Core.List.{Mem, not-mem-nil, mem-cons, filter, map-append, cons-eq-cons}
use mathlib.Core.Logic.Or
use mathlib.Core.Path.{ap₂}
use mathlib.Core.Option.{some-injective}
use native.Mathlib.Decide.{dec_lt}
use otxlinux.Prelude.{
  ℕ, ◌+◌, ◌≤◌, ◌≡◌, refl, ap, sym, ◌∙◌, ◌↔◌, inl, inr, Bool-cases, Option-cases, ◌==◌, ==_iff, List,
  [], ◌∷◌, ◌++◌, Option, none, some, arith, length, leb, leb→le, leb_false→lt,
}
use otxlinux.Access.WaitingList.{
  Wait, Lists, Player, find_index, find_client, Place, in_priority, in_wait, absent, cleanup_list,
  cleanup, settle, wait_in_line, admitted, queued,
}
use otxlinux.Access.WaitingList.Slots.{guids}

-- The players with an entry whose timeout has not come, those of the priority list first.
abbrev pub valid : ℕ → Lists → List ℕ
valid now l =
    guids (filter (λ w. dec_lt now w.timeout) l.priority_wait_list)
    ++ guids (filter (λ w. dec_lt now w.timeout) l.wait_list)

-- A player stands in the queue behind some others, and the server has room for all of them.
pub record HasTurn (online max_players guid : ℕ) (us : List ℕ) : Type 0 where
  pub front : List ℕ
  pub back : List ℕ
  pub order : us ≡ front ++ guid ∷ back
  pub first : ¬ Mem guid front
  pub room : online + length front + 1 ≤ max_players

cleanup_list-filter :
    (now : ℕ) (ws : List Wait) → cleanup_list now ws ≡ filter (λ w. dec_lt now w.timeout) ws
unfolding cleanup_list
cleanup_list-filter now [] = refl
cleanup_list-filter now (w ∷ ws) = ground (arith, cleanup_list-filter now ws)

-- The search over both lists.
find_index-append :
    (guid : ℕ) (xs ys : List Wait)
    → find_index guid (xs ++ ys) ≡ elim (find_index guid xs) [
      | some i ↦ some i
      | none ↦ elim (find_index guid ys) [ some j ↦ some (length xs + j) | none ↦ none ]
    ]
unfolding find_index
find_index-append guid [] ys = ground arith
find_index-append guid (x ∷ xs) ys = ground (arith, find_index-append guid xs ys)

-- A player who is found stands behind as many others as the index says, and the other way round.
found-front :
    (guid i : ℕ) (ws : List Wait)
    → find_index guid ws ≡ some i
    → (front : List ℕ) × (back : List ℕ) × (guids ws ≡ front ++ guid ∷ back)
      × (¬ Mem guid front)
      × (length front ≡ i)
unfolding find_index
found-front guid i [] e = cc
found-front guid i (w ∷ ws) e = elim (Bool-cases (w.player_guid == guid)) [
  | inl own ↦ (
    [],
    guids ws,
    ap (λ g. g ∷ guids ws) ((==_iff w.player_guid guid).0 own),
    not-mem-nil,
    ground arith,
  )
  | inr other ↦ elim (Option-cases (find_index guid ws)) [
    | inl nowhere ↦ ground arith
    | inr (j, there) ↦
        let (front, back, order, fresh, count) = found-front guid j ws there in
        let apart : ¬ (guid ≡ w.player_guid) = λ h. ground arith in
        (
          w.player_guid ∷ front,
          back,
          ap (λ us. w.player_guid ∷ us) order,
          (λ m. Or.elim (λ a b. absurd a) (mem-cons.0 m) apart fresh),
          ground arith,
        )
  ]
]

HasTurn-found :
    (guid : ℕ) (front back : List ℕ) (ws : List Wait)
    → guids ws ≡ front ++ guid ∷ back
    → ¬ Mem guid front
    → find_index guid ws ≡ some (length front)
unfolding find_index
HasTurn-found guid [] back [] e fresh = cc
HasTurn-found guid (a ∷ front) back [] e fresh = cc
HasTurn-found guid [] back (w ∷ ws) e fresh = let own = (cons-eq-cons.0 e).0 in ground arith
HasTurn-found guid (a ∷ front) back (w ∷ ws) e fresh =
    let same = (cons-eq-cons.0 e).0 in
    let rest =
      HasTurn-found guid front back ws (cons-eq-cons.0 e).1 (λ m. fresh (mem-cons.1 (Or.inr m))) in
    let apart : ¬ (guid ≡ a) = λ h. fresh (mem-cons.1 (Or.inl h)) in ground arith

settle_verdict :
    (now online max_players slot i : ℕ) (p : Player) (l : Lists)
    → (((settle now online max_players p (in_priority i) slot l).0 ≡ admitted)
        ↔ (online + slot ≤ max_players))
      × (((settle now online max_players p (in_wait i) slot l).0 ≡ admitted)
          ↔ (online + slot ≤ max_players))
unfolding settle
settle_verdict now online max_players slot i p l =
    elim (Bool-cases (leb (online + slot) max_players)) [
      | inl fits ↦
          let room = leb→le (online + slot) max_players fits in
          rw fits (((λ _. room), (λ _. refl)), ((λ _. room), (λ _. refl)))
      | inr full ↦
          let none_left = leb_false→lt (online + slot) max_players full in
          rw full (
            ((λ h. ground arith), (λ h. absurd (omega (arith, none_left, h)))),
            ((λ h. ground arith), (λ h. absurd (omega (arith, none_left, h)))),
          )
    ]

-- An answer by the index in both lists together.
by_index :
    {A : Type 0} (o : Option ℕ) (i online max_players slot : ℕ)
    → o ≡ some i
    → slot ≡ i + 1
    → A ↔ (online + slot ≤ max_players)
    → A ↔ ((j : ℕ) × (o ≡ some j) × (online + j + 1 ≤ max_players))
by_index o i online max_players slot e s h = (
  (λ a. let room = h.0 a in (i, e, omega (arith, room, s))),
  (λ x.
      let same : i ≡ x.0 = some-injective i x.0 (sym e ∙ x.1) in h.1 (omega (arith, same, s, x.2))),
)

found_places :
    (guid : ℕ) (l : Lists)
    → ((i : ℕ)
        → find_index guid l.priority_wait_list ≡ some i
        → find_client guid l ≡ (in_priority i, 1 + i))
      × ((i : ℕ)
          → find_index guid l.priority_wait_list ≡ none
          → find_index guid l.wait_list ≡ some i
          → find_client guid l ≡ (in_wait i, 1 + length l.priority_wait_list + i))
      × (find_index guid l.priority_wait_list ≡ none
          → find_index guid l.wait_list ≡ none
          → (find_client guid l).0 ≡ absent)
unfolding find_client
found_places guid l = (
  (λ i f. rw (f, find_client)),
  (λ i f g. rw (f, g, find_client)),
  (λ f g. rw (f, g, find_client)),
)

settle-absent :
    (now online max_players slot : ℕ) (p : Player) (place : Place) (l : Lists)
    → place ≡ absent
    → (settle now online max_players p place slot l).0 ≡ queued
unfolding settle
settle-absent now online max_players slot p (in_priority i) l e = cc
settle-absent now online max_players slot p (in_wait i) l e = cc
settle-absent now online max_players slot p absent l e = refl

settle-admitted :
    (now online max_players : ℕ) (p : Player) (l : Lists)
    → ((settle now online max_players p (find_client p.guid l).0 (find_client p.guid l).1 l).0
        ≡ admitted)
      ↔ ((i : ℕ) × (find_index p.guid (l.priority_wait_list ++ l.wait_list) ≡ some i)
          × (online + i + 1 ≤ max_players))
settle-admitted now online max_players p l =
    let both = find_index-append p.guid l.priority_wait_list l.wait_list in
    let places = found_places p.guid l in
    elim (Option-cases (find_index p.guid l.priority_wait_list)) [
      | inr (i, f) ↦ rw (places.0 i f) (
          by_index _ i online max_players (1 + i) (both ∙ rw f refl) (omega arith)
            (settle_verdict now online max_players (1 + i) i p l).0)
      | inl f ↦ elim (Option-cases (find_index p.guid l.wait_list)) [
        | inr (j, g) ↦ rw (places.1 j f g) (
            by_index _ (length l.priority_wait_list + j) online max_players
              (1 + length l.priority_wait_list + j) (both ∙ rw (f, g) refl) (omega arith)
              (settle_verdict now online max_players (1 + length l.priority_wait_list + j) j p l).1)
        | inl g ↦
            let nowhere : find_index p.guid (l.priority_wait_list ++ l.wait_list) ≡ none =
              both ∙ rw (f, g) refl in
            let waits =
              settle-absent now online max_players (find_client p.guid l).1 p
                (find_client p.guid l).0 l (places.2 f g) in
            (
              (λ h. let bad : queued ≡ admitted = sym waits ∙ h in ground arith),
              (λ x. let bad : none ≡ some x.0 = sym nowhere ∙ x.1 in ground arith),
            )
      ]
    ]

-- Behind the early returns a player enters exactly in turn.
pub wait_in_line-admitted :
    (now online max_players : ℕ) (p : Player) (l : Lists)
    → ((wait_in_line now online max_players p l).0 ≡ admitted)
      ↔ HasTurn online max_players p.guid (valid now l)
unfolding wait_in_line cleanup
wait_in_line-admitted now online max_players p l =
    let entries = cleanup_list now l.priority_wait_list ++ cleanup_list now l.wait_list in
    let same : guids entries ≡ valid now l =
      map-append (λ w. w.player_guid) (cleanup_list now l.priority_wait_list)
        (cleanup_list now l.wait_list)
      ∙ ap₂ (λ us vs. guids us ++ guids vs) (cleanup_list-filter now l.priority_wait_list)
          (cleanup_list-filter now l.wait_list) in
    let answer = settle-admitted now online max_players p (cleanup now l) in
    (
      (λ h.
          let (i, there, room) = answer.0 h in
          let (front, back, order, fresh, count) = found-front p.guid i entries there in
          record {
            front = front;
            back = back;
            order = sym same ∙ order;
            first = fresh;
            room = omega (arith, room, count);
          }),
      (λ t. answer.1 (
        length t.front,
        HasTurn-found p.guid t.front t.back entries (same ∙ t.order) t.first,
        t.room,
      )),
    )
