-- ===== src/Parties/Invitations.antt =====
-- src/party.cpp: invitations, and those who join.
use mathlib.Core.Path.{subst}
use otxlinux.Prelude.{
  ltb→lt, ℕ, ◌+◌, ◌-◌, ◌≤◌, ◌<◌, ◌≡◌, ◌≢◌, refl, ap, sym, ◌∙◌, Bool, true, false, not, ◌&&◌, List,
  [], ◌∷◌, ◌++◌, Option, none, some, ltb, ◌==◌, if◌then◌else◌, arith, ==_iff,
}
use otxlinux.Parties.{
  Party, World, write, erase, has, points_to, set_party, put_party, new_party,
  remove_party_invitation, add_party_invitation, join_party, invite_player, is_player_invited,
}
use otxlinux.Parties.Counting.{one, count, count-append, count-erase, count-remove_all, has-count}
use otxlinux.Parties.Soundness.{
  seats, invites, IsSound, if-IsSound, change-IsSound, seats-there, invites-there, write_here,
  write_elsewhere,
}

-- Facts of a sound world on the lists of invitations.
pub is_empty_list : (xs : List ℕ) (x : ℕ) → has x xs ≡ false → count x xs ≡ 0
is_empty_list xs x out = zero_of (count x xs) (sym (has-count x xs) ∙ out)
  where
    zero_of : (n : ℕ) → ltb 0 n ≡ false → n ≡ 0
    zero_of n h = ground arith

pub is_in_list : (xs : List ℕ) (x : ℕ) → has x xs ≡ true → 0 < count x xs
is_in_list xs x inside = ltb→lt 0 (count x xs) (sym (has-count x xs) ∙ inside)

-- The seats of a player who may sit down, `a`, and who was in no party then.
newly_seated :
    (p : ℕ) (a : Bool) (o : Option ℕ) (n : ℕ)
    → n ≡ one (points_to o p)
    → (a ≡ true → o ≡ none)
    → n + one a ≡ one (points_to (if a then some p else o) p)
unfolding one points_to
newly_seated p true o n h k = ground (arith, ap (λ i. one (points_to i p)) (k refl))
newly_seated p false o n h k = omega (arith, h)

newly_elsewhere :
    (p q : ℕ) (a : Bool) (o : Option ℕ)
    → q ≢ p
    → (a ≡ true → o ≡ none)
    → points_to (if a then some p else o) q ≡ points_to o q
unfolding points_to
newly_elsewhere p q true o ne k = ground (arith, ap (λ i. points_to i q) (k refl))
newly_elsewhere p q false o ne k = refl

pub count-remove_party_invitation :
    (x p q : ℕ) (w : World) (y : ℕ)
    → count q ((remove_party_invitation x p w).invitations y)
      ≡ (if (x == y) && (p == q) then 0 else count q (w.invitations y))
unfolding remove_party_invitation
count-remove_party_invitation x p q w y = ground (arith, count-remove_all p q (w.invitations x))

-- The arithmetic of an invitation that is taken back, or made, where `a` says that it is that of the
-- player looked at.
pub taken_back : (a : Bool) (n m : ℕ) → n ≡ m → m ≤ 1 → n - one a ≡ (if a && true then 0 else m)
unfolding one
taken_back true n m e h = omega (arith, e, h)
taken_back false n m e h = omega (arith, e)

pub elsewhere : (p q : ℕ) (a : Bool) (n : ℕ) → q ≢ p → (if a && (p == q) then 0 else n) ≡ n
elsewhere p q a n ne = ground arith

pub here :
    (p : ℕ) (a : Bool) (n : ℕ) → (if a && (p == p) then 0 else n) ≡ (if a && true then 0 else n)
here p a n = ground arith

pub at_most : (p : ℕ) (a : Bool) (n : ℕ) → n ≤ 1 → (if a && (p == p) then 0 else n) ≤ 1
at_most p a n h = ground arith

more_seats : (l n k : ℕ) → l + (n + (k + 0)) ≡ (l + n) + k
more_seats l n k = omega arith

-- A new object at a number that is free, for a player who is in no party.
pub new_party-IsSound :
    (p leader : ℕ) (w : World)
    → IsSound w
    → w.parties p ≡ none
    → w.party_of leader ≡ none
    → IsSound (new_party p leader w)
unfolding new_party set_party put_party seats invites points_to count
new_party-IsSound p leader w h free alone =
    change-IsSound p w _ h (λ q ne. write_elsewhere w.parties p q _ ne) (λ q y ne. unseen q y ne)
      (λ q y ne. refl) (λ y. ap (λ o. seats o y) (write_here w.parties p _) ∙ new_seats y)
      (λ y.
        ap (λ o. invites o y) (write_here w.parties p _)
        ∙ (ap (λ o. invites o y) (sym free) ∙ h.invited p y))
      (λ y. h.once p y)
  where
    zero_first : (n : ℕ) → n + 0 ≡ 0 + n
    zero_first n = omega arith

    empty_seats : (y : ℕ) → 0 ≡ one (points_to (w.party_of y) p)
    empty_seats y = ap (λ o. seats o y) (sym free) ∙ h.seated p y

    was_alone : (y : ℕ) → (leader == y) ≡ true → w.party_of y ≡ none
    was_alone y same = subst (λ z. w.party_of z ≡ none) ((==_iff leader y).0 same) alone

    new_seats :
        (y : ℕ) → one (leader == y) + 0 ≡ one (points_to (write w.party_of leader (some p) y) p)
    new_seats y =
        zero_first (one (leader == y))
        ∙ newly_seated p (leader == y) (w.party_of y) 0 (empty_seats y) (was_alone y)

    unseen :
        (q y : ℕ)
        → q ≢ p
        → points_to (write w.party_of leader (some p) y) q ≡ points_to (w.party_of y) q
    unseen q y ne = newly_elsewhere p q (leader == y) (w.party_of y) ne (was_alone y)

added_count :
    (x p q : ℕ) (f : ℕ → List ℕ) (y : ℕ)
    → count q (write f x (p ∷ f x) y) ≡ one ((x == y) && (p == q)) + count q (f y)
unfolding one count
added_count x p q f y = ground arith

added_elsewhere : (p q : ℕ) (a : Bool) (n : ℕ) → q ≢ p → one (a && (p == q)) + n ≡ n
unfolding one
added_elsewhere p q a n ne = ground arith

added_here : (p x y n m : ℕ) → n ≡ m → n + count y (x ∷ []) ≡ one ((x == y) && (p == p)) + m
unfolding one count
added_here p x y n m e = ground arith

added_once : (p : ℕ) (a : Bool) (m : ℕ) → m ≤ 1 → (a ≡ true → m ≡ 0) → one (a && (p == p)) + m ≤ 1
unfolding one
added_once p true m h k = ground (arith, k refl)
added_once p false m h k = ground arith

-- An invited player without a party who joins.
module _ (w : World) (h : IsSound w) (p : ℕ) (party : Party) (e : w.parties p ≡ some party) where
  pub join_party-IsSound :
      (may_join : Bool) (x : ℕ) → w.party_of x ≡ none → IsSound (join_party may_join p x party w).1
  unfolding join_party set_party put_party seats invites count remove_party_invitation
  join_party-IsSound may_join x alone =
      if-IsSound (not may_join) _ _ (λ _. h)
        (λ _. if-IsSound (not (has x party.invite_list)) _ _ (λ _. h) joined)
    where
      was_alone : (y : ℕ) → (x == y) ≡ true → w.party_of y ≡ none
      was_alone y same = subst (λ z. w.party_of z ≡ none) ((==_iff x y).0 same) alone

      world : World
      world = remove_party_invitation x p (
          set_party x (some p) (
            put_party p
              (record party {
                member_list = party.member_list ++ x ∷ [];
                invite_list = erase x party.invite_list;
              })
              w))

      joined : not (has x party.invite_list) ≡ false → IsSound world
      joined inside =
          change-IsSound p w world h (λ q ne. write_elsewhere w.parties p q _ ne)
            (λ q y ne. newly_elsewhere p q (x == y) (w.party_of y) ne (was_alone y))
            (λ q y ne. count-remove_party_invitation x p q w y ∙ elsewhere p q (x == y) _ ne)
            (λ y.
              ap (λ o. seats o y) (write_here w.parties p _)
              ∙ ap (λ n. one (party.leader == y) + n) (count-append y party.member_list (x ∷ []))
              ∙ more_seats (one (party.leader == y)) (count y party.member_list) (one (x == y))
              ∙ newly_seated p (x == y) (w.party_of y) _ (seats-there w h p party e y)
                  (was_alone y))
            (λ y.
              ap (λ o. invites o y) (write_here w.parties p _)
              ∙ count-erase x y party.invite_list
              ∙ taken_back (x == y) _ _ (invites-there w h p party e y) (h.once p y)
              ∙ sym (count-remove_party_invitation x p p w y ∙ here p (x == y) _))
            (λ y.
              omega
                (arith, count-remove_party_invitation x p p w y, at_most p (x == y) _ (h.once p y)))

  pub invite_player-IsSound : (x : ℕ) → IsSound (invite_player p x party w).1
  unfolding invite_player is_player_invited add_party_invitation put_party seats invites
  invite_player-IsSound x = if-IsSound (is_player_invited x party) _ _ (λ _. h) added
    where
      invited : Party
      invited = record party { invite_list = party.invite_list ++ x ∷ [] }

      world : World
      world = record w {
        parties = write w.parties p (some invited);
        invitations = write w.invitations x (p ∷ w.invitations x);
      }

      unknown : has x party.invite_list ≡ false → count p (w.invitations x) ≡ 0
      unknown new = sym (invites-there w h p party e x) ∙ is_empty_list party.invite_list x new

      counted :
          (q y : ℕ)
          → count q (world.invitations y) ≡ one ((x == y) && (p == q)) + count q (w.invitations y)
      counted q y = added_count x p q w.invitations y

      none_yet :
          has x party.invite_list ≡ false
          → (y : ℕ) → (x == y) ≡ true
          → count p (w.invitations y) ≡ 0
      none_yet new y same =
          subst (λ z. count p (w.invitations z) ≡ 0) ((==_iff x y).0 same) (unknown new)

      world-IsSound : has x party.invite_list ≡ false → IsSound world
      world-IsSound new =
          change-IsSound p w world h (λ q ne. write_elsewhere w.parties p q (some invited) ne)
            (λ q y ne. refl) (λ q y ne. counted q y ∙ added_elsewhere p q (x == y) _ ne)
            (λ y.
              ap (λ o. seats o y) (write_here w.parties p (some invited))
              ∙ seats-there w h p party e y)
            (λ y.
              ap (λ o. invites o y) (write_here w.parties p (some invited))
              ∙ count-append y party.invite_list (x ∷ [])
              ∙ added_here p x y _ _ (invites-there w h p party e y)
              ∙ sym (counted p y))
            (λ y. omega (arith, counted p y, added_once p (x == y) _ (h.once p y) (none_yet new y)))

      added :
          has x party.invite_list ≡ false
          → IsSound (add_party_invitation x p (put_party p invited w))
      added new =
          subst (λ b. IsSound (if b then put_party p invited w else world))
            (sym (has-count p (w.invitations x) ∙ ap (ltb 0) (unknown new))) (world-IsSound new)
