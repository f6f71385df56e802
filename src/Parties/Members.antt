-- ===== src/Parties/Members.antt =====
-- src/party.cpp: members, leaders and those who leave.
use mathlib.Core.Path.{subst}
use mathlib.Core.Bool.{false≢true}
use otxlinux.Prelude.{
  ℕ, ◌+◌, ◌-◌, ◌<◌, ◌≡◌, refl, ap, sym, ◌∙◌, inl, inr, Bool, true, false, not, ◌&&◌, ◌||◌, List, [],
  ◌∷◌, some, ◌==◌, is_empty, arith, Bool-cases, ==_iff,
}
use otxlinux.Parties.{
  Party, World, points_to, put_party, with_leader, pass_party_leadership, leave_leadership,
}
use otxlinux.Parties.Counting.{one, count, count-erase}
use otxlinux.Parties.Soundness.{
  seats, invites, IsSound, change-IsSound, seats-there, write_here, write_elsewhere,
}

-- A change of the object of one party, and of the pointers of one player to it.
module _ (w : World) (h : IsSound w) (p : ℕ) (party : Party) (e : w.parties p ≡ some party) where
  -- A party that has the same people, in another order.
  pub put_party-IsSound :
      (party' : Party)
      → ((y : ℕ) → seats (some party') y ≡ seats (some party) y)
      → party'.invite_list ≡ party.invite_list
      → IsSound (put_party p party' w)
  unfolding put_party invites
  put_party-IsSound party' people invitees =
      change-IsSound p w (put_party p party' w) h
        (λ q ne. write_elsewhere w.parties p q (some party') ne) (λ q y ne. refl) (λ q y ne. refl)
        (λ y.
          ap (λ o. seats o y) (write_here w.parties p (some party'))
          ∙ people y
          ∙ ap (λ o. seats o y) (sym e)
          ∙ h.seated p y)
        (λ y.
          ap (λ o. invites o y) (write_here w.parties p (some party'))
          ∙ ap (count y) invitees
          ∙ ap (λ o. invites o y) (sym e)
          ∙ h.invited p y)
        (λ y. h.once p y)

-- A member takes a seat as the leader, and the leader one as a member.
seats-with_leader :
    (x : ℕ) (party : Party) (y : ℕ)
    → 0 < count x party.member_list
    → seats (some (with_leader x party)) y ≡ seats (some party) y
unfolding seats with_leader count one
seats-with_leader x party y there =
    ap (λ n. one (x == y) + (one (party.leader == y) + n)) (count-erase x y party.member_list)
    ∙ moved (one (party.leader == y)) (at y)
  where
    at : (y : ℕ) → (x == y) ≡ true → 0 < count y party.member_list
    at y e = subst (λ z. 0 < count z party.member_list) ((==_iff x y).0 e) there

    moved :
        (l : ℕ)
        → ((x == y) ≡ true → 0 < count y party.member_list)
        → one (x == y) + (l + (count y party.member_list - one (x == y)))
          ≡ l + count y party.member_list
    moved l h = elim (Bool-cases (x == y)) [
      | inl e ↦ rw e (omega (arith, h e))
      | inr ne ↦ rw ne (omega arith)
    ]

module _ (w : World) (h : IsSound w) (p : ℕ) (party : Party) (e : w.parties p ≡ some party) where
  member_there :
      (x : ℕ)
      → ((party.leader == x) || not (points_to (w.party_of x) p)) ≡ false
      → 0 < count x party.member_list
  unfolding one
  member_there x passes = ground (arith, seats-there w h p party e x)

  pub pass_party_leadership-IsSound : (x : ℕ) → IsSound (pass_party_leadership p x party w).1
  unfolding pass_party_leadership
  pass_party_leadership-IsSound x =
      elim (Bool-cases ((party.leader == x) || not (points_to (w.party_of x) p))) [
        | inl refused ↦ rw refused h
        | inr passes ↦ rw passes (
            put_party-IsSound w h p party e (with_leader x party)
              (λ y. seats-with_leader x party y (member_there x passes))
              (unfold with_leader in refl))
      ]

-- The party that `leaveParty` goes on with: the same people, and a leader who stays unless the leader
-- is the last one.
abbrev pub IsPassed : ℕ → Party → Bool × Party → Type 0
IsPassed x party r =
    ((y : ℕ) → seats (some r.1) y ≡ seats (some party) y)
    × (r.1.invite_list ≡ party.invite_list)
    × (r.0 ≡ false → (r.1.leader == x) ≡ false)

module _ (w : World) (h : IsSound w) (p : ℕ) (party : Party) (e : w.parties p ≡ some party)
    (x : ℕ) where
  pub passes_to_front :
      (front : ℕ) (others : List ℕ)
      → party.member_list ≡ front ∷ others
      → (party.leader == x) ≡ true
      → (((party.leader == front) || not (points_to (w.party_of front) p)) ≡ false)
        × ((front == x) ≡ false)
        × (0 < count front party.member_list)
  unfolding one count
  passes_to_front front others members leads =
      let first : count front party.member_list ≡ 1 + count front others =
        ap (count front) members ∙ ground arith in
      let mine : count x party.member_list ≡ one (front == x) + count x others =
        ap (count x) members in
      (
        ground (arith, seats-there w h p party e front),
        ground (arith, seats-there w h p party e x),
        omega (arith, first),
      )

  pub leave_leadership-IsPassed :
      (members : List ℕ)
      → party.member_list ≡ members
      → IsPassed x party (leave_leadership p x members party w)
  unfolding leave_leadership
  leave_leadership-IsPassed [] same = (λ y. refl, refl, λ f. f)
  leave_leadership-IsPassed (front ∷ others) same = elim (Bool-cases (party.leader == x)) [
    | inr stays ↦ rw stays (λ y. refl, refl, λ f. stays)
    | inl leads ↦ elim (Bool-cases (is_empty others && is_empty party.invite_list)) [
      | inl last ↦ rw (leads, last) (λ y. refl, refl, λ f. absurd (false≢true (sym f)))
      | inr more ↦
          let (passes, other, there) = passes_to_front front others same leads in
          rw (leads, more, passes)
            (
              λ y. seats-with_leader front party y there,
              (unfold with_leader in refl),
              λ f. (unfold with_leader in other),
            )
    ]
  ]
