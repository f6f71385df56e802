-- ===== src/Parties/Leaving.antt =====
-- src/party.cpp: leaveParty.
use mathlib.Core.Path.{subst}
use otxlinux.Prelude.{
  ℕ, ◌+◌, ◌-◌, ◌≡◌, ◌≢◌, refl, ap, sym, ◌∙◌, Bool, true, false, not, ◌&&◌, ◌||◌, Option, none, some,
  ltb, ◌==◌, if◌then◌else◌, arith, ==_iff,
}
use otxlinux.Parties.{
  Party, World, write, erase, has, points_to, set_party, put_party, disband, leave_leadership,
  leave_party, is_party_empty,
}
use otxlinux.Parties.Counting.{one, count, count-erase, has-count, cleared}
use otxlinux.Parties.Soundness.{
  seats, invites, IsSound, if-IsSound, change-IsSound, seats-there, invites-there, write_here,
  write_elsewhere,
}
use otxlinux.Parties.Disband.{freed, disband-IsSound, not_invited}
use otxlinux.Parties.Members.{IsPassed, leave_leadership-IsPassed}

-- The arithmetic of the seats of one player `y`: `b` that `y` leads the party, `a` that `y` leaves it,
-- `c` that `y` points to it.
freed_by :
    (b a c : Bool) (n : ℕ) (o : Option ℕ)
    → one b + n ≡ one c
    → (a ≡ true → c ≡ true)
    → (if ltb 0 (n - one a) then none else if b then none else if a then none else o)
      ≡ (if c then none else o)
unfolding one
freed_by b true c n o h k = rw (k refl) (ground arith)
freed_by true false c n o h k = ground arith
freed_by false false c n o h k = ground arith

unseated :
    (p : ℕ) (b a : Bool) (n : ℕ) (o : Option ℕ)
    → one b + n ≡ one (points_to o p)
    → (a ≡ true → points_to o p ≡ true)
    → (a ≡ true → b ≡ false)
    → one b + (n - one a) ≡ one (points_to (if a then none else o) p)
unfolding one points_to
unseated p b true n o h k l = ground (arith, h, k refl, l refl)
unseated p b false n o h k l = omega (arith, h)

moved_away :
    (p q : ℕ) (o : Option ℕ) (a : Bool)
    → q ≢ p
    → (a ≡ true → points_to o p ≡ true)
    → points_to (if a then none else o) q ≡ points_to o q
unfolding points_to
moved_away p q o false ne k = refl
moved_away p q none true ne k = refl
moved_away p q (some r) true ne k = ground (arith, k refl)

abbrev left : ℕ → Bool × Party → Party
left x r = record r.1 { member_list = erase x r.1.member_list }

unfoldable without : ℕ → ℕ → Bool × Party → World → World
without p x r w = set_party x none (put_party p (left x r) w)

-- The player who leaves points to the party, and `r` is what `leave_leadership` gave.
module _ (w : World) (h : IsSound w) (p : ℕ) (party : Party) (e : w.parties p ≡ some party) (x : ℕ)
    (mine : points_to (w.party_of x) p ≡ true) (r : Bool × Party) (ok : IsPassed x party r) where
  seats-passed :
      (y : ℕ) → one (r.1.leader == y) + count y r.1.member_list ≡ one (points_to (w.party_of y) p)
  unfolding seats
  seats-passed y = ok.0 y ∙ seats-there w h p party e y

  points_there : (y : ℕ) → (x == y) ≡ true → points_to (w.party_of y) p ≡ true
  points_there y same = subst (λ z. points_to (w.party_of z) p ≡ true) ((==_iff x y).0 same) mine

  leave_and_disband : IsSound (disband true p (left x r) (without p x r w))
  unfolding set_party put_party without cleared freed
  leave_and_disband =
      disband-IsSound p (left x r) w (without p x r w) h
        (λ q ne. write_elsewhere w.parties p q (some (left x r)) ne) people
        (λ y out. not_invited w h p party e y (ap (has y) (sym ok.1) ∙ out)) (λ q y ne. refl)
    where
      people :
          (y : ℕ)
          → cleared
              (left x r).member_list
              (write (without p x r w).party_of (left x r).leader none)
              y
            ≡ freed p (w.party_of y)
      people y =
          rw (has-count y (erase x r.1.member_list), count-erase x y r.1.member_list)
            (freed_by (r.1.leader == y) (x == y) (points_to (w.party_of y) p)
              (count y r.1.member_list) (w.party_of y) (seats-passed y) (points_there y))

  leave_and_stay : r.0 ≡ false → IsSound (without p x r w)
  unfolding set_party put_party without seats invites
  leave_and_stay stays =
      change-IsSound p w (without p x r w) h
        (λ q ne. write_elsewhere w.parties p q (some (left x r)) ne)
        (λ q y ne. moved_away p q (w.party_of y) (x == y) ne (points_there y)) (λ q y ne. refl)
        (λ y.
          ap (λ o. seats o y) (write_here w.parties p (some (left x r)))
          ∙ ap (λ n. one (r.1.leader == y) + n) (count-erase x y r.1.member_list)
          ∙ unseated p (r.1.leader == y) (x == y) (count y r.1.member_list) (w.party_of y)
              (seats-passed y) (points_there y) (leads_no_more y))
        (λ y.
          ap (λ o. invites o y) (write_here w.parties p (some (left x r)))
          ∙ ap (count y) ok.1
          ∙ invites-there w h p party e y)
        (λ y. h.once p y)
    where
      leads_no_more : (y : ℕ) → (x == y) ≡ true → (r.1.leader == y) ≡ false
      leads_no_more y same =
          subst (λ z. (r.1.leader == z) ≡ false) ((==_iff x y).0 same) (ok.2 stays)

-- A player of a sound world who leaves a party, while the scripts do not forbid that the party is
-- disbanded.
module _ (w : World) (h : IsSound w) (p : ℕ) (party : Party) (e : w.parties p ≡ some party) where
  leader_points : (x : ℕ) → (party.leader == x) ≡ true → points_to (w.party_of x) p ≡ true
  unfolding one
  leader_points x leads = ground (arith, seats-there w h p party e x)

  pub leave_party-IsSound :
      (may_leave : Bool) (x : ℕ) → IsSound (leave_party may_leave true p x party w).1
  unfolding leave_party set_party without
  leave_party-IsSound false x =
      if-IsSound (not (points_to (w.party_of x) p) && not (party.leader == x)) (false, w) (false, w)
        (λ _. h) (λ _. h)
  leave_party-IsSound true x =
      let r = leave_leadership p x party.member_list party w in
      let ok = leave_leadership-IsPassed w h p party e x party.member_list refl in
      let last = r.0 || is_party_empty (left x r) in
      if-IsSound (not (points_to (w.party_of x) p) && not (party.leader == x)) (false, w)
        (if last
          then (true, disband true p (left x r) (without p x r w))
          else (true, (without p x r w)))
        (λ _. h)
        (λ inside.
          if-IsSound last _ _ (λ _. leave_and_disband w h p party e x (points x inside) r ok)
            (λ goes_on.
              leave_and_stay w h p party e x (points x inside) r ok (first_false r.0 _ goes_on)))
    where
      points :
          (x : ℕ)
          → (not (points_to (w.party_of x) p) && not (party.leader == x)) ≡ false
          → points_to (w.party_of x) p ≡ true
      points x inside = ground (arith, leader_points x)

      first_false : (a b : Bool) → (a || b) ≡ false → a ≡ false
      first_false a b h = ground arith
