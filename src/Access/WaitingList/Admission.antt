-- ===== src/Access/WaitingList/Admission.antt =====
-- src/waitlist.cpp, WaitingList::clientLogin: who is admitted.
use otxlinux.Prelude.{
  ℕ, ◌≤◌, ◌<◌, ◌≡◌, refl, ◌↔◌, inl, inr, Bool-cases, false, ◌||◌, ◌==◌, ==_iff, is_empty, List, [],
  ◌∷◌, arith, leb, true,
}
use otxlinux.Access.WaitingList.{
  Wait, Lists, Player, account_type_gamemaster, client_login, is_free, admitted,
}
use otxlinux.Access.WaitingList.Turn.{valid, HasTurn, wait_in_line-admitted}

-- What lets a player in.
pub data MayEnter (now online max_players : ℕ) (p : Player) (l : Lists) : Type 0 where
  privileged : p.can_always_login ≡ true → MayEnter now online max_players p l
  gamemaster : account_type_gamemaster ≤ p.account_type → MayEnter now online max_players p l
  unlimited : max_players ≡ 0 → MayEnter now online max_players p l
  quiet :
      l.priority_wait_list ≡ []
      → l.wait_list ≡ []
      → online < max_players
      → MayEnter now online max_players p l
  in_turn : HasTurn online max_players p.guid (valid now l) → MayEnter now online max_players p l

MayEnter-always :
    (now online max_players : ℕ) (p : Player) (l : Lists)
    → (p.can_always_login || leb account_type_gamemaster p.account_type) ≡ true
    → MayEnter now online max_players p l
MayEnter-always now online max_players p l h = elim (Bool-cases p.can_always_login) [
  | inl flag ↦ privileged flag
  | inr plain ↦ gamemaster (ground arith)
]

nobody : (ws : List Wait) → is_empty ws ≡ true → ws ≡ []
nobody [] h = refl
nobody (w ∷ ws) h = cc

MayEnter-free :
    (now online max_players : ℕ) (p : Player) (l : Lists)
    → is_free online max_players l ≡ true
    → MayEnter now online max_players p l
unfolding is_free
MayEnter-free now online max_players p l h = elim (Bool-cases (max_players == 0)) [
  | inl endless ↦ unlimited ((==_iff max_players 0).0 endless)
  | inr limit ↦
      quiet (nobody l.priority_wait_list (ground arith)) (nobody l.wait_list (ground arith))
        (ground arith)
]

MayEnter-turn :
    (now online max_players : ℕ) (p : Player) (l : Lists)
    → (p.can_always_login || leb account_type_gamemaster p.account_type) ≡ false
    → is_free online max_players l ≡ false
    → MayEnter now online max_players p l
    → HasTurn online max_players p.guid (valid now l)
unfolding is_free
MayEnter-turn now online max_players p l ordinary busy (privileged e) = ground arith
MayEnter-turn now online max_players p l ordinary busy (gamemaster e) = ground arith
MayEnter-turn now online max_players p l ordinary busy (unlimited e) = ground arith
MayEnter-turn now online max_players p l ordinary busy (quiet e f g) =
    let empty_priority : is_empty l.priority_wait_list ≡ true = rw e refl in
    let empty_wait : is_empty l.wait_list ≡ true = rw f refl in ground arith
MayEnter-turn now online max_players p l ordinary busy (in_turn t) = t

-- The waiting list lets a player in exactly if the player is privileged or a gamemaster, or there is
-- no limit, or nobody has an entry and there is room for one more, or if the player has an entry
-- whose timeout has not come and there is room for all who stand before it, the priority list first,
-- and for the player.
pub admitted_iff :
    (now online max_players : ℕ) (p : Player) (l : Lists)
    → ((client_login now online max_players p l).0 ≡ admitted) ↔ MayEnter now online max_players p l
unfolding client_login
admitted_iff now online max_players p l =
    elim (Bool-cases (p.can_always_login || leb account_type_gamemaster p.account_type)) [
      | inl always ↦ rw always ((λ h. MayEnter-always now online max_players p l always), λ h. refl)
      | inr ordinary ↦ rw ordinary (elim (Bool-cases (is_free online max_players l)) [
        | inl free ↦ rw free ((λ h. MayEnter-free now online max_players p l free), λ h. refl)
        | inr busy ↦
            let turn = wait_in_line-admitted now online max_players p l in
            rw busy (
              (λ h. in_turn (turn.0 h)),
              λ h. turn.1 (MayEnter-turn now online max_players p l ordinary busy h),
            )
      ])
    ]
