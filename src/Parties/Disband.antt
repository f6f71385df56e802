-- ===== src/Parties/Disband.antt =====
-- src/party.cpp: disband leaves no pointer to the party.
use otxlinux.Prelude.{
  ℕ, ◌+◌, ◌≡◌, ◌≢◌, refl, ap, sym, ◌∙◌, Bool, true, false, ◌&&◌, Option, none, some, ltb, ◌==◌,
  if◌then◌else◌, arith,
}
use otxlinux.Parties.{Party, World, write, has, points_to, set_party, delete, disband}
use otxlinux.Parties.Counting.{
  one, count, has-count, cleared, clear_all-record, clear_all-invitations, clear_all-party_of,
  uninvite_all-parties, uninvite_all-party_of, count-uninvite_all,
}
use otxlinux.Parties.Soundness.{
  seats, invites, IsSound, change-IsSound, seats-there, invites-there, write_here, write_elsewhere,
}

-- What `disband` leaves of the pointers.
module _ (p : ℕ) (party : Party) (w : World) where
  disband-parties :
      (q : ℕ) → (disband true p party w).parties q ≡ (if p == q then none else w.parties q)
  unfolding disband delete set_party
  disband-parties q =
      ap (λ f. if p == q then none else f q)
        (clear_all-record party.member_list _ ∙ uninvite_all-parties p party.invite_list _)

  disband-party_of :
      (y : ℕ)
      → (disband true p party w).party_of y
        ≡ cleared party.member_list (write w.party_of party.leader none) y
  unfolding disband delete set_party cleared
  disband-party_of y =
      clear_all-party_of party.member_list _ y
      ∙ ap (λ f. cleared party.member_list f y)
          (uninvite_all-party_of p party.invite_list (set_party party.leader none w))

  count-disband :
      (q y : ℕ)
      → count q ((disband true p party w).invitations y)
        ≡ (if (p == q) && has y party.invite_list then 0 else count q (w.invitations y))
  unfolding disband delete set_party
  count-disband q y =
      ap (λ f. count q (f y)) (clear_all-invitations party.member_list _)
      ∙ count-uninvite_all p q party.invite_list (set_party party.leader none w) y

-- A player who is freed from the party `p`.
unfoldable pub freed : ℕ → Option ℕ → Option ℕ
freed p o = if points_to o p then none else o

pub freed-points : (p : ℕ) (o : Option ℕ) → points_to (freed p o) p ≡ false
unfolding freed points_to
freed-points p none = refl
freed-points p (some r) = ground arith

pub freed-points_other : (p q : ℕ) (o : Option ℕ) → q ≢ p → points_to (freed p o) q ≡ points_to o q
unfolding freed points_to
freed-points_other p q none ne = refl
freed-points_other p q (some r) ne = ground arith

-- The world `w` to which `disband` comes need not be sound: it may be in the middle of another
-- function that began at a sound one.
pub disband-IsSound :
    (p : ℕ) (party : Party) (w0 w : World)
    → IsSound w0
    → ((q : ℕ) → q ≢ p → w.parties q ≡ w0.parties q)
    → ((y : ℕ)
        → cleared party.member_list (write w.party_of party.leader none) y
          ≡ freed p (w0.party_of y))
    → ((y : ℕ) → has y party.invite_list ≡ false → count p (w.invitations y) ≡ 0)
    → ((q y : ℕ) → q ≢ p → count q (w.invitations y) ≡ count q (w0.invitations y))
    → IsSound (disband true p party w)
unfolding seats invites one
disband-IsSound p party w0 w h parties people invited others =
    change-IsSound p w0 (disband true p party w) h
      (λ q ne. disband-parties p party w q ∙ write_elsewhere w.parties p q none ne ∙ parties q ne)
      (λ q y ne.
        ap (λ o. points_to o q) (disband-party_of p party w y ∙ people y)
        ∙ freed-points_other p q (w0.party_of y) ne)
      (λ q y ne.
        count-disband p party w q y
        ∙ elsewhere p q (has y party.invite_list) (count q (w.invitations y)) ne
        ∙ others q y ne)
      (λ y.
        ap (λ o. seats o y) (disband-parties p party w p ∙ write_here w.parties p none)
        ∙ ap one (
            sym (
              ap (λ o. points_to o p) (disband-party_of p party w y ∙ people y)
              ∙ freed-points p (w0.party_of y))))
      (λ y.
        ap (λ o. invites o y) (disband-parties p party w p ∙ write_here w.parties p none)
        ∙ sym (none_left y))
      (λ y. omega (arith, none_left y))
  where
    elsewhere : (p q : ℕ) (b : Bool) (n : ℕ) → q ≢ p → (if (p == q) && b then 0 else n) ≡ n
    elsewhere p q b n ne = ground arith

    here : (b : Bool) (n : ℕ) → (b ≡ false → n ≡ 0) → (if (p == p) && b then 0 else n) ≡ 0
    here true n h = ground arith
    here false n h = ground (arith, h refl)

    none_left : (y : ℕ) → count p ((disband true p party w).invitations y) ≡ 0
    none_left y =
        count-disband p party w p y
        ∙ here (has y party.invite_list) (count p (w.invitations y)) (invited y)

-- Who is freed when the leader and the members of a party in a sound world are.
module _ (w : World) (h : IsSound w) (p : ℕ) (party : Party) (e : w.parties p ≡ some party) where
  pub people-there :
      (y : ℕ)
      → cleared party.member_list (write w.party_of party.leader none) y ≡ freed p (w.party_of y)
  unfolding cleared freed one
  people-there y = rw (has-count y party.member_list) (
      by_seats (party.leader == y) (count y party.member_list) (points_to (w.party_of y) p)
        (w.party_of y) (seats-there w h p party e y))
    where
      by_seats :
          (b : Bool) (n : ℕ) (c : Bool) (o : Option ℕ)
          → one b + n ≡ one c
          → (if ltb 0 n then none else if b then none else o) ≡ (if c then none else o)
      by_seats true n true o h = ground arith
      by_seats true n false o h = ground arith
      by_seats false n true o h = ground arith
      by_seats false n false o h = ground arith

  pub not_invited : (y : ℕ) → has y party.invite_list ≡ false → count p (w.invitations y) ≡ 0
  not_invited y out =
      sym (invites-there w h p party e y)
      ∙ zero_of (count y party.invite_list) (sym (has-count y party.invite_list) ∙ out)
    where
      zero_of : (n : ℕ) → ltb 0 n ≡ false → n ≡ 0
      zero_of n h = ground arith

  pub disband_lem : (allowed : Bool) → IsSound (disband allowed p party w)
  disband_lem false = unfold disband in h
  disband_lem true =
      disband-IsSound p party w w h (λ q ne. refl) people-there not_invited (λ q y ne. refl)
