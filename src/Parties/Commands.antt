-- ===== src/Parties/Commands.antt =====
-- src/game.cpp, the commands of the players on parties, and the functions of src/player.cpp that they
-- ask: isInviting and isPartner. A player who is not online is not found.
use otxlinux.Prelude.{
  ℕ, Bool, true, false, not, ◌&&◌, List, [], ◌∷◌, none, some, ◌==◌, if◌then◌else◌,
}
use otxlinux.Parties.{
  Party, World, new_party, points_to, is_player_invited, pass_party_leadership, leave_party,
  join_party, remove_invite, invite_player,
}

-- What is done with the party that a player points to.
unfoldable pub with_party : World → ℕ → (ℕ → Party → World) → World → World
with_party w x f otherwise = elim (w.party_of x) [
  | none ↦ otherwise
  | some p ↦ elim (w.parties p) [ none ↦ w | some party ↦ f p party ]
]

unfoldable pub is_inviting : ℕ → ℕ → World → Bool
is_inviting x y w = elim (w.party_of x) [
  | none ↦ false
  | some p ↦ elim (w.parties p) [
    | none ↦ false
    | some party ↦ (party.leader == x) && is_player_invited y party
  ]
]

unfoldable pub is_in_party : ℕ → World → Bool
is_in_party x w = elim (w.party_of x) [ none ↦ false | some p ↦ true ]

-- `isPartner`, for a player who points to `p`.
unfoldable pub is_partner : ℕ → ℕ → World → Bool
is_partner p y w = points_to (w.party_of y) p

-- PartyShields_t, and `getPartyShield` of `y` as `x` sees it.
pub data PartyShield : Type 0 where
  none_shown white_yellow white_blue blue yellow : PartyShield

unfoldable pub get_party_shield : ℕ → ℕ → World → PartyShield
get_party_shield x y w =
    let invited = if is_inviting y x w then white_yellow else none_shown in
    elim (w.party_of x) [
      | none ↦ invited
      | some p ↦ elim (w.parties p) [
        | none ↦ invited
        | some party ↦
            if party.leader == y
            then yellow
            else if points_to (w.party_of y) p
            then blue
            else if is_inviting x y w
            then white_blue
            else invited
      ]
    ]

-- The commands, with the answers of the scripts, whether the player is in a fight, and the number of
-- a new object.
pub data Command : Type 0 where
  invites : (fresh player invited : ℕ) → Command
  joins : (may_join : Bool) (player leader : ℕ) → Command
  revokes : (may_disband : Bool) (player invited : ℕ) → Command
  passes : (player new_leader : ℕ) → Command
  leaves : (may_leave may_disband in_fight : Bool) (player : ℕ) → Command

unfoldable pub player_invite_to_party : ℕ → ℕ → ℕ → World → World
player_invite_to_party fresh x y w =
    let founded = new_party fresh x w in
    if is_inviting y x w
    then w
    else if is_in_party y w
    then w
    else with_party w x (λ p party. if party.leader == x then (invite_player p y party w).1 else w)
        (invite_player fresh y (record { leader = x; member_list = []; invite_list = [] })
          founded).1

unfoldable pub player_join_party : Bool → ℕ → ℕ → World → World
player_join_party may_join x leader w =
    if not (is_inviting leader x w)
    then w
    else with_party w leader
        (λ p party.
          if not (party.leader == leader)
          then w
          else if is_in_party x w
          then w
          else (join_party may_join p x party w).1)
        w

unfoldable pub player_revoke_party_invitation : Bool → ℕ → ℕ → World → World
player_revoke_party_invitation may_disband x y w =
    with_party w x
      (λ p party.
        if not (party.leader == x)
        then w
        else if not (is_inviting x y w)
        then w
        else (remove_invite may_disband true p y party w).1)
      w

unfoldable pub player_pass_party_leadership : ℕ → ℕ → World → World
player_pass_party_leadership x y w =
    with_party w x
      (λ p party.
        if not (party.leader == x)
        then w
        else if not (is_partner p y w)
        then w
        else (pass_party_leadership p y party w).1)
      w

unfoldable pub player_leave_party : (may_leave may_disband in_fight : Bool) → ℕ → World → World
player_leave_party may_leave may_disband in_fight x w =
    with_party w x
      (λ p party. if in_fight then w else (leave_party may_leave may_disband p x party w).1) w

unfoldable pub step : Command → World → World
step (invites fresh x y) w = player_invite_to_party fresh x y w
step (joins may_join x leader) w = player_join_party may_join x leader w
step (revokes may_disband x y) w = player_revoke_party_invitation may_disband x y w
step (passes x y) w = player_pass_party_leadership x y w
step (leaves may_leave may_disband in_fight x) w =
    player_leave_party may_leave may_disband in_fight x w

unfoldable pub run_commands : List Command → World → World
run_commands [] w = w
run_commands (c ∷ cs) w = run_commands cs (step c w)
