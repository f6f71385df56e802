-- ===== src/Parties/Soundness.antt =====
-- src/party.cpp: players and parties point to each other.
use mathlib.Core.Path.{subst}
use otxlinux.Prelude.{
  ℕ, ◌+◌, ◌≤◌, ◌<◌, ◌≡◌, ◌≢◌, refl, ap, sym, ◌∙◌, inl, inr, Bool, true, false, Option, none, some,
  ◌==◌, if◌then◌else◌, arith, Bool-cases, ==_iff, ==_false,
}
use otxlinux.Parties.{Party, World, write, points_to}
use otxlinux.Parties.Counting.{one, count}

-- How often a party has a player as its leader or a member, and how often as an invitee.
unfoldable pub seats : Option Party → ℕ → ℕ
seats none x = 0
seats (some party) x = one (party.leader == x) + count x party.member_list

unfoldable pub invites : Option Party → ℕ → ℕ
invites none x = 0
invites (some party) x = count x party.invite_list

-- A party has a player exactly once if the player points to it, and else never. So no player points to
-- a party that is deleted. The same holds of invitations, which no list has twice.
pub record IsSound (w : World) : Type 0 where
  pub seated : (p x : ℕ) → seats (w.parties p) x ≡ one (points_to (w.party_of x) p)
  pub invited : (p x : ℕ) → invites (w.parties p) x ≡ count p (w.invitations x)
  pub once : (p x : ℕ) → count p (w.invitations x) ≤ 1

-- Both outcomes of a test.
pub if-IsSound :
    (b : Bool) (s t : Bool × World)
    → (b ≡ true → IsSound s.1)
    → (b ≡ false → IsSound t.1)
    → IsSound (if b then s else t).1
if-IsSound true s t h k = h refl
if-IsSound false s t h k = k refl

-- A change of one party and of the pointers to it.
pub change-IsSound :
    (p : ℕ) (w w' : World)
    → IsSound w
    → ((q : ℕ) → q ≢ p → w'.parties q ≡ w.parties q)
    → ((q x : ℕ) → q ≢ p → points_to (w'.party_of x) q ≡ points_to (w.party_of x) q)
    → ((q x : ℕ) → q ≢ p → count q (w'.invitations x) ≡ count q (w.invitations x))
    → ((x : ℕ) → seats (w'.parties p) x ≡ one (points_to (w'.party_of x) p))
    → ((x : ℕ) → invites (w'.parties p) x ≡ count p (w'.invitations x))
    → ((x : ℕ) → count p (w'.invitations x) ≤ 1)
    → IsSound w'
change-IsSound p w w' h parties points invitations seated invited once = record {
  seated = λ q x. elim (Bool-cases (q == p)) [
    | inl e ↦
        subst (λ r. seats (w'.parties r) x ≡ one (points_to (w'.party_of x) r))
          (sym ((==_iff q p).0 e)) (seated x)
    | inr ne ↦
        ap (λ o. seats o x) (parties q (==_false q p ne))
        ∙ h.seated q x
        ∙ ap one (sym (points q x (==_false q p ne)))
  ];
  invited = λ q x. elim (Bool-cases (q == p)) [
    | inl e ↦
        subst (λ r. invites (w'.parties r) x ≡ count r (w'.invitations x)) (sym ((==_iff q p).0 e))
          (invited x)
    | inr ne ↦
        ap (λ o. invites o x) (parties q (==_false q p ne))
        ∙ h.invited q x
        ∙ sym (invitations q x (==_false q p ne))
  ];
  once = λ q x. elim (Bool-cases (q == p)) [
    | inl e ↦ subst (λ r. count r (w'.invitations x) ≤ 1) (sym ((==_iff q p).0 e)) (once x)
    | inr ne ↦ omega (arith, h.once q x, invitations q x (==_false q p ne))
  ];
}

-- What the object of a party holds says of the pointers to it.
module _ (w : World) (h : IsSound w) (p : ℕ) (party : Party) (e : w.parties p ≡ some party) where
  pub seats-there :
      (x : ℕ)
      → one (party.leader == x) + count x party.member_list ≡ one (points_to (w.party_of x) p)
  unfolding seats
  seats-there x = ap (λ o. seats o x) (sym e) ∙ h.seated p x

  pub invites-there : (x : ℕ) → count x party.invite_list ≡ count p (w.invitations x)
  unfolding invites
  invites-there x = ap (λ o. invites o x) (sym e) ∙ h.invited p x

  pub points-elsewhere :
      (x q : ℕ)
      → q ≢ p
      → 0 < one (party.leader == x) + count x party.member_list
      → points_to (w.party_of x) q ≡ false
  unfolding points_to one
  points-elsewhere x q ne here = only (w.party_of x) (omega (arith, seats-there x, here))
    where
      only : (o : Option ℕ) → 0 < one (points_to o p) → points_to o q ≡ false
      only none k = refl
      only (some r) k = ground arith

pub write_here {ℓ} : {A : Type ℓ} (f : ℕ → A) (p : ℕ) (a : A) → write f p a p ≡ a
write_here f p a = ground arith

pub write_elsewhere {ℓ} : {A : Type ℓ} (f : ℕ → A) (p q : ℕ) (a : A) → q ≢ p → write f p a q ≡ f q
write_elsewhere f p q a ne = ground arith
