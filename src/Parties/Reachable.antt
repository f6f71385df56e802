-- ===== src/Parties/Reachable.antt =====
-- src/game.cpp, the commands on parties: the worlds that they lead to.
use mathlib.Core.Path.{subst}
use mathlib.Core.Bool.{false≢true}
use otxlinux.Prelude.{
  ℕ, ◌+◌, ◌≡◌, refl, ap, sym, ◌∙◌, Bool, true, false, not, List, [], ◌∷◌, Option, none, some, ◌==◌,
  if◌then◌else◌, arith,
}
use otxlinux.Parties.{Party, World, new_party, invite_player, points_to, put_party, set_party}
use otxlinux.Parties.Counting.{one, count}
use otxlinux.Parties.Soundness.{seats, invites, IsSound, write_here}
use otxlinux.Parties.Members.{pass_party_leadership-IsSound}
use otxlinux.Parties.Leaving.{leave_party-IsSound}
use otxlinux.Parties.Invitations.{new_party-IsSound, join_party-IsSound, invite_player-IsSound}
use otxlinux.Parties.Revoking.{remove_invite-IsSound}
use otxlinux.Parties.Commands.{
  with_party, is_inviting, is_in_party, is_partner, Command, joins, passes, leaves, revokes,
  player_invite_to_party, player_join_party, player_revoke_party_invitation,
  player_pass_party_leadership, player_leave_party, step, run_commands,
}

-- A new object gets a number that no party has, and the scripts do not forbid that a party is
-- disbanded.
abbrev pub IsAllowed : Command → World → Type 0
IsAllowed (Command.invites fresh x y) w = w.parties fresh ≡ none
IsAllowed (joins may_join x leader) w = Unit
IsAllowed (revokes may_disband x y) w = may_disband ≡ true
IsAllowed (passes x y) w = Unit
IsAllowed (leaves may_leave may_disband in_fight x) w = may_disband ≡ true

abbrev pub AreAllowed : List Command → World → Type 0
AreAllowed [] w = Unit
AreAllowed (c ∷ cs) w = IsAllowed c w × AreAllowed cs (step c w)

guarded :
    (b : Bool) (s t : World) → IsSound s → (b ≡ false → IsSound t) → IsSound (if b then s else t)
guarded true s t h k = h
guarded false s t h k = k refl

with_party-IsSound :
    (w : World) (x : ℕ) (f : ℕ → Party → World) (otherwise : World)
    → IsSound w
    → (w.party_of x ≡ none → IsSound otherwise)
    → ((p : ℕ) (party : Party) → w.parties p ≡ some party → IsSound (f p party))
    → IsSound (with_party w x f otherwise)
unfolding with_party
with_party-IsSound w x f otherwise h outside inside = by_party (w.party_of x) refl
  where
    by_object :
        (p : ℕ) (o : Option Party)
        → w.parties p ≡ o
        → IsSound (elim o [ none ↦ w | some party ↦ f p party ])
    by_object p none e = h
    by_object p (some party) e = inside p party e

    by_party :
        (o : Option ℕ)
        → w.party_of x ≡ o
        → IsSound (elim o [
          | none ↦ otherwise
          | some p ↦ elim (w.parties p) [ none ↦ w | some party ↦ f p party ]
        ])
    by_party none e = outside e
    by_party (some p) e = by_object p (w.parties p) refl

not_in_party : (o : Option ℕ) → elim o [ none ↦ false | some p ↦ true ] ≡ false → o ≡ none
not_in_party none e = refl
not_in_party (some p) e = absurd (false≢true (sym e))

new_object :
    (fresh x : ℕ) (w : World)
    → (new_party fresh x w).parties fresh
      ≡ some (record { leader = x; member_list = []; invite_list = [] })
unfolding new_party set_party put_party
new_object fresh x w = write_here w.parties fresh _

pub step-IsSound : (c : Command) (w : World) → IsSound w → IsAllowed c w → IsSound (step c w)
unfolding step player_invite_to_party player_join_party player_revoke_party_invitation
    player_pass_party_leadership player_leave_party is_in_party
step-IsSound (Command.invites fresh x y) w h free = guarded (is_inviting y x w) w _ h (λ _.
    guarded (is_in_party y w) w _ h (λ _.
      with_party-IsSound w x _ _ h
        (λ alone.
          invite_player-IsSound (new_party fresh x w) (new_party-IsSound fresh x w h free alone)
            fresh (record { leader = x; member_list = []; invite_list = [] }) (new_object fresh x w)
            y)
        (λ p party e. guarded_on (party.leader == x) _ (invite_player-IsSound w h p party e y))))
  where
    guarded_on : (b : Bool) (s : World) → IsSound s → IsSound (if b then s else w)
    guarded_on true s k = k
    guarded_on false s k = h
step-IsSound (joins may_join x leader) w h allowed =
    guarded (not (is_inviting leader x w)) w _ h (λ _.
      with_party-IsSound w leader _ w h (λ _. h)
        (λ p party e. guarded (not (party.leader == leader)) w _ h (λ _.
          guarded (is_in_party x w) w _ h (λ alone.
            join_party-IsSound w h p party e may_join x (not_in_party (w.party_of x) alone)))))
step-IsSound (revokes may_disband x y) w h allowed =
    with_party-IsSound w x _ w h (λ _. h)
      (λ p party e. guarded (not (party.leader == x)) w _ h (λ _.
        guarded (not (is_inviting x y w)) w _ h (λ _.
          subst (λ b. IsSound (otxlinux.Parties.remove_invite b true p y party w).1) (sym allowed)
            (remove_invite-IsSound w h p party e y))))
step-IsSound (passes x y) w h allowed =
    with_party-IsSound w x _ w h (λ _. h)
      (λ p party e. guarded (not (party.leader == x)) w _ h (λ _.
        guarded (not (is_partner p y w)) w _ h
          (λ _. pass_party_leadership-IsSound w h p party e y)))
step-IsSound (leaves may_leave may_disband in_fight x) w h allowed =
    with_party-IsSound w x _ w h (λ _. h)
      (λ p party e. guarded in_fight w _ h (λ _.
        subst (λ b. IsSound (otxlinux.Parties.leave_party may_leave b p x party w).1) (sym allowed)
          (leave_party-IsSound w h p party e may_leave x)))

-- A sound world stays sound whatever commands the players give, in any order, while every new object
-- gets a free number and the scripts do not forbid that a party is disbanded.
pub run_commands-IsSound :
    (cs : List Command) (w : World) → IsSound w → AreAllowed cs w → IsSound (run_commands cs w)
unfolding run_commands
run_commands-IsSound [] w h allowed = h
run_commands-IsSound (c ∷ cs) w h allowed =
    run_commands-IsSound cs (step c w) (step-IsSound c w h allowed.0) allowed.1

-- The world before the first party.
abbrev pub nobody : World
nobody = record { parties = λ p. none; party_of = λ x. none; invitations = λ x. [] }

pub nobody-IsSound : IsSound nobody
unfolding seats invites points_to one count
nobody-IsSound = record { seated = λ p x. refl; invited = λ p x. refl; once = λ p x. omega arith }

-- After any such commands from the first world on, a player who points to a party points to an object
-- that exists and that has the player in exactly one seat.
pub no_dangling_party :
    (cs : List Command) (x p : ℕ)
    → AreAllowed cs nobody
    → (run_commands cs nobody).party_of x ≡ some p
    → (party : Party) × ((run_commands cs nobody).parties p ≡ some party)
      × (one (party.leader == x) + count x party.member_list ≡ 1)
unfolding seats points_to one
no_dangling_party cs x p allowed points =
    object ((run_commands cs nobody).parties p) refl
      (sound.seated p x ∙ ap (λ o. one (points_to o p)) points ∙ ground arith)
  where
    sound : IsSound (run_commands cs nobody)
    sound = run_commands-IsSound cs nobody nobody-IsSound allowed

    object :
        (o : Option Party)
        → (run_commands cs nobody).parties p ≡ o
        → seats o x ≡ 1
        → (party : Party) × ((run_commands cs nobody).parties p ≡ some party)
          × (one (party.leader == x) + count x party.member_list ≡ 1)
    object none e one_seat = absurd (omega (arith, one_seat))
    object (some party) e one_seat = (party, e, one_seat)
