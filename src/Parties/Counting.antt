-- ===== src/Parties/Counting.antt =====
-- src/party.cpp: how often a player or a party stands in a list, and what the list functions do to it.
use otxlinux.Prelude.{
  ℕ, ◌+◌, ◌-◌, ◌≤◌, ◌≡◌, refl, ◌∙◌, Bool, ◌&&◌, List, [], ◌∷◌, ◌++◌, Option, none, ltb, ◌==◌,
  if◌then◌else◌, arith,
}
use otxlinux.Parties.{
  World, erase, has, remove_all, set_party, remove_party_invitation, uninvite_all, clear_all,
}

unfoldable pub one : Bool → ℕ
one b = if b then 1 else 0

unfoldable pub count : ℕ → List ℕ → ℕ
count x [] = 0
count x (y ∷ ys) = one (y == x) + count x ys

pub count-append : (x : ℕ) (xs ys : List ℕ) → count x (xs ++ ys) ≡ count x xs + count x ys
unfolding count
count-append x [] ys = omega arith
count-append x (y ∷ xs) ys = omega (arith, count-append x xs ys)

pub count-erase : (x y : ℕ) (xs : List ℕ) → count y (erase x xs) ≡ count y xs - one (x == y)
unfolding count erase one
count-erase x y [] = ground arith
count-erase x y (z ∷ xs) = ground (arith, count-erase x y xs, has_one x xs)
  where
    has_one : (x : ℕ) (xs : List ℕ) → 0 ≤ count x xs
    has_one x xs = omega arith

pub count-remove_all :
    (x y : ℕ) (xs : List ℕ) → count y (remove_all x xs) ≡ (if x == y then 0 else count y xs)
unfolding count remove_all one
count-remove_all x y [] = ground arith
count-remove_all x y (z ∷ xs) = ground (arith, count-remove_all x y xs)

pub has-count : (x : ℕ) (xs : List ℕ) → has x xs ≡ ltb 0 (count x xs)
unfolding has count one
has-count x [] = refl
has-count x (y ∷ xs) = ground (arith, has-count x xs)

-- The loops of `disband` on the two functions of the world.
unfoldable pub cleared : List ℕ → (ℕ → Option ℕ) → ℕ → Option ℕ
cleared xs f y = if has y xs then none else f y

pub clear_all-record : (xs : List ℕ) (w : World) → (clear_all xs w).parties ≡ w.parties
unfolding clear_all set_party
clear_all-record [] w = refl
clear_all-record (x ∷ xs) w = clear_all-record xs (set_party x none w)

pub clear_all-invitations : (xs : List ℕ) (w : World) → (clear_all xs w).invitations ≡ w.invitations
unfolding clear_all set_party
clear_all-invitations [] w = refl
clear_all-invitations (x ∷ xs) w = clear_all-invitations xs (set_party x none w)

pub clear_all-party_of :
    (xs : List ℕ) (w : World) (y : ℕ) → (clear_all xs w).party_of y ≡ cleared xs w.party_of y
unfolding clear_all set_party cleared has
clear_all-party_of [] w y = refl
clear_all-party_of (x ∷ xs) w y = clear_all-party_of xs (set_party x none w) y ∙ ground arith

pub uninvite_all-parties :
    (p : ℕ) (xs : List ℕ) (w : World) → (uninvite_all p xs w).parties ≡ w.parties
unfolding uninvite_all remove_party_invitation
uninvite_all-parties p [] w = refl
uninvite_all-parties p (x ∷ xs) w = uninvite_all-parties p xs (remove_party_invitation x p w)

pub uninvite_all-party_of :
    (p : ℕ) (xs : List ℕ) (w : World) → (uninvite_all p xs w).party_of ≡ w.party_of
unfolding uninvite_all remove_party_invitation
uninvite_all-party_of p [] w = refl
uninvite_all-party_of p (x ∷ xs) w = uninvite_all-party_of p xs (remove_party_invitation x p w)

pub count-uninvite_all :
    (p q : ℕ) (xs : List ℕ) (w : World) (y : ℕ)
    → count q ((uninvite_all p xs w).invitations y)
      ≡ (if (p == q) && has y xs then 0 else count q (w.invitations y))
unfolding uninvite_all remove_party_invitation has
count-uninvite_all p q [] w y = ground arith
count-uninvite_all p q (x ∷ xs) w y =
    count-uninvite_all p q xs (remove_party_invitation x p w) y
    ∙ ground (arith, count-remove_all p q (w.invitations x))
