-- ===== src/Parties/Examples.antt =====
-- The theorems on parties at concrete inputs.
use otxlinux.Prelude.{◌+◌, ◌≡◌, refl, true, false, List, [], ◌∷◌, none, some, ◌==◌, if◌then◌else◌}
use otxlinux.Parties.{
  Party, World, leave_party, new_party, set_party, put_party, invite_player, is_player_invited, has,
  add_party_invitation, erase, join_party, remove_party_invitation, remove_all, points_to,
  leave_leadership, is_party_empty, disband,
}
use otxlinux.Parties.Counting.{one, count}
use otxlinux.Parties.Soundness.{IsSound}
use otxlinux.Parties.Commands.{
  Command, joins, step, run_commands, player_invite_to_party, player_join_party, with_party,
  is_inviting, is_in_party,
}
use otxlinux.Parties.Reachable.{
  AreAllowed, nobody, nobody-IsSound, run_commands-IsSound, no_dangling_party,
}
use otxlinux.Parties.Leaders.{leave_party-leader}

-- Player 1 founds the party 50 and invites 2 and 3, who join.
abbrev gathering : List Command
gathering = Command.invites 50 1 2 ∷ Command.invites 51 1 3 ∷ joins true 2 1 ∷ joins true 3 1 ∷ []

gathering-AreAllowed : AreAllowed gathering nobody
unfolding step player_invite_to_party player_join_party with_party is_inviting is_in_party new_party
    set_party put_party invite_player is_player_invited has add_party_invitation
gathering-AreAllowed = (refl, (refl, (tt, (tt, tt))))

abbrev three : Party
three = record { leader = 1; member_list = 2 ∷ 3 ∷ []; invite_list = [] }

gathered :
    ((run_commands gathering nobody).parties 50 ≡ some three)
    × ((run_commands gathering nobody).party_of 3 ≡ some 50)
unfolding run_commands step player_invite_to_party player_join_party with_party is_inviting
    is_in_party new_party set_party put_party invite_player is_player_invited has
    add_party_invitation join_party remove_party_invitation remove_all erase
gathered = (refl, refl)

no_dangling_party_example :
    (party : Party) × ((run_commands gathering nobody).parties 50 ≡ some party)
    × (one (party.leader == 3) + count 3 party.member_list ≡ 1)
no_dangling_party_example = no_dangling_party gathering 3 50 gathering-AreAllowed gathered.1

run_commands-IsSound_example : IsSound (run_commands gathering nobody)
run_commands-IsSound_example =
    run_commands-IsSound gathering nobody nobody-IsSound gathering-AreAllowed

leave_party-leader_example :
    let r = leave_party true true 50 1 three (run_commands gathering nobody) in
    (r.1.parties 50 ≡ some (record three { leader = 2; member_list = 3 ∷ [] }))
    × (r.1.party_of 1 ≡ none)
leave_party-leader_example =
    leave_party-leader (run_commands gathering nobody) 50 three 2 (3 ∷ []) true
      (run_commands-IsSound gathering nobody nobody-IsSound gathering-AreAllowed) gathered.0 refl
      refl

-- When a script forbids that the party is disbanded, the last one to leave stays its leader and points
-- to no party.
abbrev alone : Party
alone = record { leader = 1; member_list = []; invite_list = [] }

abbrev alone_world : World
alone_world = record {
  parties = λ p. if p == 50 then some alone else none;
  party_of = λ x. if x == 1 then some 50 else none;
  invitations = λ x. [];
}

leader_without_party :
    let r = leave_party true false 50 1 alone alone_world in
    (r.1.parties 50 ≡ some alone) × (r.1.party_of 1 ≡ none)
unfolding leave_party leave_leadership points_to is_party_empty disband set_party put_party erase
leader_without_party = (refl, refl)
