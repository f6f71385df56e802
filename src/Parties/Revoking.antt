-- ===== src/Parties/Revoking.antt =====
-- src/party.cpp: removeInvite.
use otxlinux.Prelude.{
  ℕ, ◌≡◌, refl, ap, sym, ◌∙◌, Bool, true, false, not, some, ◌==◌, if◌then◌else◌, arith,
}
use otxlinux.Parties.{
  Party, World, erase, has, put_party, disband, remove_party_invitation, remove_invite,
  is_party_empty,
}
use otxlinux.Parties.Counting.{count, count-erase}
use otxlinux.Parties.Soundness.{
  seats, invites, IsSound, if-IsSound, change-IsSound, seats-there, invites-there, write_here,
  write_elsewhere,
}
use otxlinux.Parties.Disband.{disband-IsSound, people-there}
use otxlinux.Parties.Invitations.{
  is_empty_list, count-remove_party_invitation, taken_back, elsewhere, here, at_most,
}

-- An invitation that is taken back, while the scripts do not forbid that the party is disbanded.
module _ (w : World) (h : IsSound w) (p : ℕ) (party : Party) (e : w.parties p ≡ some party)
    (x : ℕ) where
  abbrev uninvited : Party
  uninvited = record party { invite_list = erase x party.invite_list }

  abbrev without_invitee : World
  without_invitee = remove_party_invitation x p (put_party p uninvited w)

  invites-uninvited :
      (y : ℕ) → count y (erase x party.invite_list) ≡ count p (without_invitee.invitations y)
  unfolding remove_party_invitation put_party
  invites-uninvited y =
      count-erase x y party.invite_list
      ∙ taken_back (x == y) _ _ (invites-there w h p party e y) (h.once p y)
      ∙ sym (count-remove_party_invitation x p p w y ∙ here p (x == y) _)

  revoke_and_stay : IsSound without_invitee
  unfolding remove_party_invitation put_party seats invites
  revoke_and_stay =
      change-IsSound p w without_invitee h (λ q ne. write_elsewhere w.parties p q _ ne)
        (λ q y ne. refl)
        (λ q y ne. count-remove_party_invitation x p q w y ∙ elsewhere p q (x == y) _ ne)
        (λ y. ap (λ o. seats o y) (write_here w.parties p _) ∙ seats-there w h p party e y)
        (λ y. ap (λ o. invites o y) (write_here w.parties p _) ∙ invites-uninvited y)
        (λ y.
          omega (arith, count-remove_party_invitation x p p w y, at_most p (x == y) _ (h.once p y)))

  revoke_and_disband : IsSound (disband true p uninvited without_invitee)
  unfolding remove_party_invitation put_party
  revoke_and_disband =
      disband-IsSound p uninvited w without_invitee h (λ q ne. write_elsewhere w.parties p q _ ne)
        (people-there w h p party e)
        (λ y out. sym (invites-uninvited y) ∙ is_empty_list (erase x party.invite_list) y out)
        (λ q y ne. count-remove_party_invitation x p q w y ∙ elsewhere p q (x == y) _ ne)

  pub remove_invite-IsSound : IsSound (remove_invite true true p x party w).1
  unfolding remove_invite
  remove_invite-IsSound =
      if-IsSound (not (has x party.invite_list)) (false, w)
        (
          true,
          if is_party_empty uninvited
              then disband true p uninvited without_invitee
              else without_invitee,
        )
        (λ _. h) (λ _. either (is_party_empty uninvited))
    where
      either :
          (b : Bool)
          → IsSound (if b then disband true p uninvited without_invitee else without_invitee)
      either true = revoke_and_disband
      either false = revoke_and_stay
