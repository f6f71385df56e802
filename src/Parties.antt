-- ===== src/Parties.antt =====
-- src/party.cpp, the functions on parties of src/player.cpp and the commands on parties of
-- src/game.cpp. A party is the number of its object; the world maps such numbers to the objects that
-- are not deleted, and players to the party and the invitations that they point to. What the scripts
-- answer to an event is an argument. Messages and icons that go to the clients are left out.
pub mod Counting
pub mod Soundness
pub mod Disband
pub mod Members
pub mod Leaving
pub mod Invitations
pub mod Revoking
pub mod Commands
pub mod Reachable
pub mod Leaders
mod Examples
use otxlinux.Prelude.{
  ℕ, zero, suc, ◌+◌, Bool, true, false, not, ◌&&◌, ◌||◌, List, [], ◌∷◌, ◌++◌, Option, none, some,
  ltb, ◌==◌, if◌then◌else◌, is_empty, length,
}

pub record Party : Type 0 where
  pub leader : ℕ
  pub member_list : List ℕ
  pub invite_list : List ℕ

pub record World : Type 0 where
  pub parties : ℕ → Option Party
  pub party_of : ℕ → Option ℕ
  pub invitations : ℕ → List ℕ

-- A field of one object is written.
abbrev pub write {ℓ} : {A : Type ℓ} → (ℕ → A) → ℕ → A → ℕ → A
write f p a q = if p == q then a else f q

-- `std::find` and `erase` of what it found.
unfoldable pub erase : ℕ → List ℕ → List ℕ
erase x [] = []
erase x (y ∷ ys) = let rest = erase x ys in if y == x then ys else y ∷ rest

unfoldable pub has : ℕ → List ℕ → Bool
has x [] = false
has x (y ∷ ys) = if y == x then true else has x ys

-- `remove` of a `std::forward_list`.
unfoldable pub remove_all : ℕ → List ℕ → List ℕ
remove_all x [] = []
remove_all x (y ∷ ys) = let rest = remove_all x ys in if y == x then rest else y ∷ rest

unfoldable pub points_to : Option ℕ → ℕ → Bool
points_to none p = false
points_to (some q) p = q == p

unfoldable pub set_party : ℕ → Option ℕ → World → World
set_party x o w = record w { party_of = write w.party_of x o }

unfoldable pub put_party : ℕ → Party → World → World
put_party p party w = record w { parties = write w.parties p (some party) }

unfoldable pub remove_party_invitation : ℕ → ℕ → World → World
remove_party_invitation x p w = record w {
  invitations = write w.invitations x (remove_all p (w.invitations x));
}

unfoldable pub add_party_invitation : ℕ → ℕ → World → World
add_party_invitation x p w =
    if has p (w.invitations x)
    then w
    else record w { invitations = write w.invitations x (p ∷ w.invitations x) }

-- The constructor, at the number of the new object.
unfoldable pub new_party : ℕ → ℕ → World → World
new_party p leader w =
    set_party leader (some p)
      (put_party p (record { leader = leader; member_list = []; invite_list = [] }) w)

-- The loops of `disband`.
unfoldable pub uninvite_all : ℕ → List ℕ → World → World
uninvite_all p [] w = w
uninvite_all p (x ∷ xs) w = uninvite_all p xs (remove_party_invitation x p w)

unfoldable pub clear_all : List ℕ → World → World
clear_all [] w = w
clear_all (x ∷ xs) w = clear_all xs (set_party x none w)

unfoldable pub delete : ℕ → World → World
delete p w = record w { parties = write w.parties p none }

unfoldable pub disband : Bool → ℕ → Party → World → World
disband allowed p party w =
    if allowed
    then delete p (
        clear_all party.member_list
          (uninvite_all p party.invite_list (set_party party.leader none w)))
    else w

unfoldable pub is_party_empty : Party → Bool
is_party_empty party = is_empty party.member_list && is_empty party.invite_list

-- `isPlayerInvited`.
unfoldable pub is_player_invited : ℕ → Party → Bool
is_player_invited x party = has x party.invite_list

-- The party after `passPartyLeadership` to a member.
unfoldable pub with_leader : ℕ → Party → Party
with_leader x party = record party {
  leader = x;
  member_list = party.leader ∷ erase x party.member_list;
}

unfoldable pub pass_party_leadership : ℕ → ℕ → Party → World → Bool × World
pass_party_leadership p x party w =
    if party.leader == x || not (points_to (w.party_of x) p)
    then (false, w)
    else (true, put_party p (with_leader x party) w)

-- The part of `leaveParty` that may pass the leadership on: whether the leader goes missing, and the
-- party after it.
unfoldable pub leave_leadership : ℕ → ℕ → List ℕ → Party → World → Bool × Party
leave_leadership p x [] party w = (party.leader == x, party)
leave_leadership p x (front ∷ others) party w =
    if party.leader == x
    then if is_empty others && is_empty party.invite_list then (true, party) else (
      false,
      if party.leader == front || not (points_to (w.party_of front) p)
          then party
          else with_leader front party,
    )
    else (false, party)

unfoldable pub leave_party : (may_leave may_disband : Bool) → ℕ → ℕ → Party → World → Bool × World
leave_party may_leave may_disband p x party w =
    let (missing_leader, passed) = leave_leadership p x party.member_list party w in
    let left = record passed { member_list = erase x passed.member_list } in
    let w' = set_party x none (put_party p left w) in
    if not (points_to (w.party_of x) p) && not (party.leader == x)
    then (false, w)
    else if not may_leave
    then (false, w)
    else if missing_leader || is_party_empty left
    then (true, disband may_disband p left w')
    else (true, w')

unfoldable pub join_party : Bool → ℕ → ℕ → Party → World → Bool × World
join_party may_join p x party w =
    let joined = record party {
      member_list = party.member_list ++ x ∷ [];
      invite_list = erase x party.invite_list;
    } in
    if not may_join
    then (false, w)
    else if not (has x party.invite_list)
    then (false, w)
    else (true, remove_party_invitation x p (set_party x (some p) (put_party p joined w)))

unfoldable pub remove_invite :
    (may_disband from_player : Bool) → ℕ → ℕ → Party → World → Bool × World
remove_invite may_disband from_player p x party w =
    let left = record party { invite_list = erase x party.invite_list } in
    let w1 = put_party p left w in
    let w2 = if from_player then remove_party_invitation x p w1 else w1 in
    if not (has x party.invite_list)
    then (false, w)
    else (true, if is_party_empty left then disband may_disband p left w2 else w2)

unfoldable pub invite_player : ℕ → ℕ → Party → World → Bool × World
invite_player p x party w = if is_player_invited x party then (false, w) else (
  true,
  add_party_invitation x p
      (put_party p (record party { invite_list = party.invite_list ++ x ∷ [] }) w),
)
