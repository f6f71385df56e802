-- ===== src/Access/WaitingList/Order.antt =====
-- src/waitlist.cpp, WaitingList::clientLogin: the players keep their order in the lists.
use mathlib.Core.List.{
  mem-append, mem-cons, Nodup-cons, perm_middle, Mem, Nodup, Sublist, map-append, append_assoc,
  append-nil,
}
use mathlib.Core.List.Sublist
use mathlib.Core.List.Nodup
use mathlib.Core.List.Perm
use mathlib.Core.Logic.Or
use mathlib.Core.Path.{subst}
use otxlinux.Prelude.{
  ℕ, ◌+◌, ◌≡◌, refl, sym, inl, inr, ◌⊎◌, ◌||◌, if◌then◌else◌, List, [], ◌∷◌, ◌++◌, arith, leb,
  Bool-cases, Option-cases,
}
use otxlinux.Access.WaitingList.{
  Wait, Lists, Player, account_type_gamemaster, find_index, find_client, Place, in_priority,
  in_wait, absent, cleanup_list, cleanup, settle, enlist, wait_in_line, client_login, is_free,
}
use otxlinux.Access.WaitingList.Slots.{
  guids, cleanup_list-sublist, erase_at-sublist, guids-set_timeout, find_index-none,
}

-- The players who wait, those of the priority list first.
abbrev pub queue : Lists → List ℕ
queue l = guids l.priority_wait_list ++ guids l.wait_list

-- A premium player goes to the end of the priority list, another one to the end of the wait list.
abbrev pub Joins : Player → Lists → Lists → Type 0
Joins p l l' =
    Sublist (guids l'.priority_wait_list)
      (guids l.priority_wait_list ++ (if p.is_premium then p.guid ∷ [] else []))
    × Sublist (guids l'.wait_list) (guids l.wait_list ++ (if p.is_premium then [] else p.guid ∷ []))
    × Mem p.guid (guids (if p.is_premium then l'.priority_wait_list else l'.wait_list))

-- Nobody has moved; or the caller had no entry that is still valid, and has joined a list at its end,
-- where all others stand as they stood.
abbrev pub IsInOrder : ℕ → Player → Lists → Lists → Type 0
IsInOrder now p l l' =
    Sublist (queue l') (queue l) ⊎ ((¬ Mem p.guid (queue (cleanup now l))) × Joins p l l')

cleanup-sublist : (now : ℕ) (l : Lists) → Sublist (queue (cleanup now l)) (queue l)
unfolding cleanup
cleanup-sublist now l =
    Sublist.append (cleanup_list-sublist now l.priority_wait_list)
      (cleanup_list-sublist now l.wait_list)

-- A cleaned list with nothing and with one entry behind it.
kept : (now : ℕ) (ws : List Wait) → Sublist (guids (cleanup_list now ws)) (guids ws ++ [])
kept now ws = subst (Sublist _) (sym (append-nil (guids ws))) (cleanup_list-sublist now ws)

appended :
    (now : ℕ) (w : Wait) (ws : List Wait)
    → Sublist (guids (cleanup_list now ws ++ w ∷ [])) (guids ws ++ w.player_guid ∷ [])
appended now w ws =
    subst (λ us. Sublist us (guids ws ++ w.player_guid ∷ [])) (sym (map-append _ _ _))
      (Sublist.append (cleanup_list-sublist now ws) (Sublist.refl (w.player_guid ∷ [])))

named_last : (w : Wait) (ws : List Wait) → Mem w.player_guid (guids (ws ++ w ∷ []))
named_last w ws =
    subst (Mem w.player_guid) (sym (map-append _ ws (w ∷ [])))
      (mem-append.1 (Or.inr (mem-cons.1 (Or.inl refl))))

enlist-Joins : (now : ℕ) (p : Player) (l : Lists) → Joins p l (enlist now p (cleanup now l))
unfolding enlist cleanup
enlist-Joins now p l = elim (Bool-cases p.is_premium) [
  | inl premium ↦ rw premium (
    appended now _ l.priority_wait_list,
    kept now l.wait_list,
    named_last _ (cleanup_list now l.priority_wait_list),
  )
  | inr free ↦ rw free (
    kept now l.priority_wait_list,
    appended now _ l.wait_list,
    named_last _ (cleanup_list now l.wait_list),
  )
]

absent_fresh : (guid : ℕ) (l : Lists) → (find_client guid l).0 ≡ absent → ¬ Mem guid (queue l)
unfolding find_client
absent_fresh guid l e m = elim (Option-cases (find_index guid l.priority_wait_list)) [
  | inr (i, f) ↦ ground arith
  | inl f ↦ elim (Option-cases (find_index guid l.wait_list)) [
    | inr (j, g) ↦ ground arith
    | inl g ↦
        Or.elim (λ a b. absurd a) (mem-append.0 m) (find_index-none guid l.priority_wait_list f)
          (find_index-none guid l.wait_list g)
  ]
]

-- At an entry that is there, the players of the queue stay as they are but for the caller, who may
-- leave it.
settle-sublist :
    (now online max_players slot i : ℕ) (p : Player) (l : Lists)
    → Sublist (queue (settle now online max_players p (in_priority i) slot l).1) (queue l)
      × Sublist (queue (settle now online max_players p (in_wait i) slot l).1) (queue l)
unfolding settle
settle-sublist now online max_players slot i p l =
    elim (Bool-cases (leb (online + slot) max_players)) [
      | inl fits ↦ rw fits (
        Sublist.append (erase_at-sublist i l.priority_wait_list) (Sublist.refl (guids l.wait_list)),
        Sublist.append (Sublist.refl (guids l.priority_wait_list)) (erase_at-sublist i l.wait_list),
      )
      | inr full ↦ rw full (
        rw (guids-set_timeout i) (Sublist.refl (queue l)),
        rw (guids-set_timeout i) (Sublist.refl (queue l)),
      )
    ]

settle-IsInOrder :
    (now online max_players slot : ℕ) (p : Player) (place : Place) (l : Lists)
    → (find_client p.guid (cleanup now l)).0 ≡ place
    → IsInOrder now p l (settle now online max_players p place slot (cleanup now l)).1
settle-IsInOrder now online max_players slot p (in_priority i) l e = inl (
    Sublist.trans (settle-sublist now online max_players slot i p (cleanup now l)).0
      (cleanup-sublist now l))
settle-IsInOrder now online max_players slot p (in_wait i) l e = inl (
    Sublist.trans (settle-sublist now online max_players slot i p (cleanup now l)).1
      (cleanup-sublist now l))
settle-IsInOrder now online max_players slot p absent l e =
    inr (absent_fresh p.guid (cleanup now l) e, unfold settle in enlist-Joins now p l)

-- No player who waits overtakes another in a call, seen over the priority list and the wait list
-- behind it: what is left of the queue has its old order. The one exception is a caller without an
-- entry that is still valid, who is put at the end of the priority list if premium, and of the wait
-- list if not; then each list keeps the order of the others.
pub client_login-IsInOrder :
    (now online max_players : ℕ) (p : Player) (l : Lists)
    → IsInOrder now p l (client_login now online max_players p l).1
unfolding client_login
client_login-IsInOrder now online max_players p l =
    elim (Bool-cases (p.can_always_login || leb account_type_gamemaster p.account_type)) [
      | inl always ↦ rw always (inl (Sublist.refl (queue l)))
      | inr ordinary ↦ rw ordinary (elim (Bool-cases (is_free online max_players l)) [
        | inl free ↦ rw free (inl (Sublist.refl (queue l)))
        | inr busy ↦
            rw busy (unfold wait_in_line in settle-IsInOrder now online max_players _ p _ l refl)
      ])
    ]

-- No player is named twice.
abbrev pub IsDistinct : Lists → Type 0
IsDistinct l = Nodup (queue l)

cleanup-IsDistinct : (now : ℕ) (l : Lists) → IsDistinct l → IsDistinct (cleanup now l)
cleanup-IsDistinct now l h = Nodup.sublist (cleanup-sublist now l) h

enlist-IsDistinct :
    (now : ℕ) (p : Player) (l : Lists)
    → (find_client p.guid l).0 ≡ absent
    → IsDistinct l
    → IsDistinct (enlist now p l)
unfolding enlist
enlist-IsDistinct now p l e h =
    let ps = guids l.priority_wait_list in
    let ws = guids l.wait_list in
    let both = Nodup-cons.1 (absent_fresh p.guid l e, h) in
    let front : Nodup ((ps ++ p.guid ∷ []) ++ ws) =
      subst Nodup (sym (append_assoc ps (p.guid ∷ []) ws))
        (Perm.nodup (Perm.symm (perm_middle ps ws)) both) in
    let back : Nodup (ps ++ (ws ++ p.guid ∷ [])) = subst Nodup (append_assoc ps ws (p.guid ∷ [])) (
      Perm.nodup (Perm.symm (perm_middle (ps ++ ws) []))
        (subst (λ us. Nodup (p.guid ∷ us)) (sym (append-nil (ps ++ ws))) both)) in
    elim (Bool-cases p.is_premium) [
      | inl premium ↦ rw (premium, map-append _ l.priority_wait_list _) front
      | inr free ↦ rw (free, map-append _ l.wait_list _) back
    ]

settle-IsDistinct :
    (now online max_players slot : ℕ) (p : Player) (place : Place) (l : Lists)
    → (find_client p.guid l).0 ≡ place
    → IsDistinct l
    → IsDistinct (settle now online max_players p place slot l).1
settle-IsDistinct now online max_players slot p (in_priority i) l e h =
    Nodup.sublist (settle-sublist now online max_players slot i p l).0 h
settle-IsDistinct now online max_players slot p (in_wait i) l e h =
    Nodup.sublist (settle-sublist now online max_players slot i p l).1 h
settle-IsDistinct now online max_players slot p absent l e h =
    unfold settle in enlist-IsDistinct now p l e h

-- No call makes a player wait twice.
pub client_login-IsDistinct :
    (now online max_players : ℕ) (p : Player) (l : Lists)
    → IsDistinct l
    → IsDistinct (client_login now online max_players p l).1
unfolding client_login wait_in_line
client_login-IsDistinct now online max_players p l h =
    elim (Bool-cases (p.can_always_login || leb account_type_gamemaster p.account_type)) [
      | inl always ↦ rw always h
      | inr ordinary ↦ rw ordinary (elim (Bool-cases (is_free online max_players l)) [
        | inl free ↦ rw free h
        | inr busy ↦ rw busy (
            settle-IsDistinct now online max_players _ p _ (cleanup now l) refl
              (cleanup-IsDistinct now l h))
      ])
    ]
