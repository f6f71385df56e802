-- ===== src/Parties/Leaders.antt =====
-- src/party.cpp, leaveParty and passPartyLeadership: who leads the party afterwards.
use otxlinux.Prelude.{
  ℕ, ◌≡◌, ap, ◌∙◌, Bool, true, false, not, ◌&&◌, ◌||◌, List, ◌∷◌, none, some, ◌==◌, arith, is_empty,
}
use otxlinux.Parties.{
  Party, World, erase, points_to, put_party, set_party, with_leader, leave_party, leave_leadership,
  is_party_empty,
}
use otxlinux.Parties.Counting.{one}
use otxlinux.Parties.Soundness.{IsSound, seats-there, write_here}
use otxlinux.Parties.Members.{passes_to_front}

same_number : (n : ℕ) → (n == n) ≡ true
same_number n = ground arith

erase_first : (x : ℕ) (xs : List ℕ) → erase x (x ∷ xs) ≡ xs
unfolding erase
erase_first x xs = rw (same_number x)

shrunk :
    (front : ℕ) (others : List ℕ) (party : Party)
    → party.member_list ≡ front ∷ others
    → erase party.leader (with_leader front party).member_list ≡ others
unfolding with_leader
shrunk front others party members =
    erase_first party.leader (erase front party.member_list)
    ∙ ap (erase front) members
    ∙ erase_first front others

not_empty :
    (front : ℕ) (others : List ℕ) (party : Party)
    → (is_empty others && is_empty party.invite_list) ≡ false
    → is_party_empty (record party { leader = front; member_list = others }) ≡ false
unfolding is_party_empty
not_empty front others party more = more

module _ (w : World) (h : IsSound w) (p : ℕ) (party : Party) (e : w.parties p ≡ some party) where
  leader_points : points_to (w.party_of party.leader) p ≡ true
  unfolding one
  leader_points = ground (arith, seats-there w h p party e party.leader, same_number party.leader)

  passed :
      (front : ℕ) (others : List ℕ)
      → party.member_list ≡ front ∷ others
      → (is_empty others && is_empty party.invite_list) ≡ false
      → leave_leadership p party.leader party.member_list party w ≡ (false, with_leader front party)
  passed front others members more =
      ap (λ ms. leave_leadership p party.leader ms party w) members
      ∙ to_front
          (passes_to_front w h p party e party.leader front others members
            (same_number party.leader)).0
    where
      to_front :
          ((party.leader == front) || not (points_to (w.party_of front) p)) ≡ false
          → leave_leadership p party.leader (front ∷ others) party w
            ≡ (false, with_leader front party)
      to_front passes = unfold leave_leadership in rw (same_number party.leader, more, passes)

-- When the leader of a party in a sound world leaves it, and the scripts allow that, and not just one
-- member without invitees is left, the first member leads the party on, with the other members and all
-- the invitees, and the one who led it is in no party.
pub leave_party-leader :
    (w : World) (p : ℕ) (party : Party) (front : ℕ) (others : List ℕ) (may_disband : Bool)
    → IsSound w
    → w.parties p ≡ some party
    → party.member_list ≡ front ∷ others
    → (is_empty others && is_empty party.invite_list) ≡ false
    → let r = leave_party true may_disband p party.leader party w in
      (r.1.parties p ≡ some (record party { leader = front; member_list = others }))
      × (r.1.party_of party.leader ≡ none)
unfolding leave_party set_party put_party is_party_empty with_leader
leave_party-leader w p party front others may_disband h e members more =
    rw
      (
        leader_points w h p party e,
        passed w h p party e front others members more,
        shrunk front others party members,
        not_empty front others party more,
      )
      (write_here w.parties p _, write_here w.party_of party.leader none)
