-- ===== src/Trades/Started.antt =====
-- src/game.cpp, internalStartTrade: the players and the items after a start.
use mathlib.Core.Path.{subst}
use otxlinux.Prelude.{
  ℕ, ◌≡◌, refl, ap, sym, ◌∙◌, ◌⊎◌, inl, inr, Bool, Bool-cases, true, false, not, Option, none, some,
  ◌==◌, if◌then◌else◌, arith,
}
use otxlinux.Prelude.Maps.{find, assign, find-assign}
use otxlinux.Trades.{
  initiated, is_idle, is_acknowledged, is_transferring, Trader, Trades, is_player, is_busy,
  is_busy_partner, is_known,
}
use otxlinux.Trades.Soundness.{IsOrderly, IsSound, same_player}

is_player-some : (o : Option ℕ) (i : ℕ) → is_player o i ≡ true → o ≡ some i
unfolding is_player
is_player-some none i h = ground arith
is_player-some (some j) i h = ap some (ground arith)

unknown : (o : Option ℕ) → true ≡ not (is_known o) → o ≡ none
unfolding is_known
unknown none h = refl
unknown (some j) h = ground arith

pub idle_alone : (t : Trader) → IsOrderly t → is_idle t.trade_state ≡ true → t.trade_partner ≡ none
idle_alone t h k = unknown t.trade_partner (sym k ∙ h.alone)

-- The two ways to start: both players are idle, or the partner has made an offer to the player.
pub start-cases :
    (p q : ℕ) (w : Trades)
    → IsSound w
    → is_busy (w.traders p) q ≡ false
    → is_busy_partner (w.traders q) p ≡ false
    → (((w.traders p).trade_partner ≡ none) × (is_idle (w.traders q).trade_state ≡ true))
      ⊎ (((w.traders p).trade_partner ≡ some q) × ((w.traders p).trade_item ≡ none))
unfolding is_busy is_busy_partner
start-cases p q w s h k = elim (Bool-cases (is_idle (w.traders p).trade_state)) [
  | inl free ↦
      let first : (w.traders p).trade_partner ≡ none =
        idle_alone (w.traders p) (s.orderly p) free in
      elim (Bool-cases (is_idle (w.traders q).trade_state)) [
        | inl both ↦ inl (first, both)
        | inr busy ↦
            let partner : (w.traders q).trade_partner ≡ some p =
              is_player-some (w.traders q).trade_partner p (ground arith) in
            let bad : none ≡ some q = sym first ∙ (s.paired q p partner).0 in ground arith
      ]
  | inr engaged ↦
      let partner : (w.traders p).trade_partner ≡ some q =
        is_player-some (w.traders p).trade_partner q (ground arith) in
      inr (partner, (s.orderly p).asked (ground arith))
]

-- The world after a start, with what the partner is then.
unfoldable pub started : ℕ → ℕ → ℕ → Trader → Trades → Trades
started p q i b w = record {
  traders = λ r.
      if r == q
      then b
      else if r == p
      then record { trade_state = initiated; trade_item = some i; trade_partner = some q }
      else w.traders r;
  trade_items = assign w.trade_items i p;
}

abbrev pub offering : ℕ → ℕ → Trader
offering q i = record { trade_state = initiated; trade_item = some i; trade_partner = some q }

offering-IsOrderly : (q i : ℕ) → IsOrderly (offering q i)
unfolding is_idle is_known is_acknowledged is_transferring
offering-IsOrderly q i = record {
  alone = refl;
  bare = λ k. ground arith;
  asked = λ k. ground arith;
  settled = refl;
}

module _ (p q i : ℕ) (b : Trader) (w : Trades) (s : IsSound w) (apart : (p == q) ≡ false)
    (b_partner : b.trade_partner ≡ some p) (b_orderly : IsOrderly b)
    (b_item : b.trade_item ≡ (w.traders q).trade_item) (p_item : (w.traders p).trade_item ≡ none)
    (new : find w.trade_items i ≡ none)
    (strangers : (r t : ℕ)
      → (r == p) ≡ false
      → (r == q) ≡ false
      → (w.traders r).trade_partner ≡ some t
      → ((t == p) ≡ false) × ((t == q) ≡ false)) where
  flipped : (q == p) ≡ false
  flipped = ground arith

  at_partner : (started p q i b w).traders q ≡ b
  unfolding started
  at_partner = let same : (q == q) ≡ true = ground arith in rw same refl

  at_player : (started p q i b w).traders p ≡ offering q i
  unfolding started
  at_player = let same : (p == p) ≡ true = ground arith in rw (apart, same) refl

  at_other :
      (r : ℕ) → (r == p) ≡ false → (r == q) ≡ false → (started p q i b w).traders r ≡ w.traders r
  unfolding started
  at_other r h k = rw (k, h) refl

  who : (r : ℕ) → (r ≡ q) ⊎ ((r ≡ p) ⊎ (((r == p) ≡ false) × ((r == q) ≡ false)))
  who r = elim (Bool-cases (r == q)) [
    | inl second ↦ inl (ground arith)
    | inr not_second ↦ elim (Bool-cases (r == p)) [
      | inl first ↦ inr (inl (ground arith))
      | inr not_first ↦ inr (inr (not_first, not_second))
    ]
  ]

  abbrev partner_of : ℕ → Option ℕ
  partner_of r = ((started p q i b w).traders r).trade_partner

  abbrev item_of : ℕ → Option ℕ
  item_of r = ((started p q i b w).traders r).trade_item

  started-paired : (r t : ℕ) → partner_of r ≡ some t → (partner_of t ≡ some r) × ((r == t) ≡ false)
  started-paired r t h = elim (who r) [
    | inl second ↦
        let target : p ≡ t =
          same_player b.trade_partner p t b_partner
            (sym (ap (λ x. x.trade_partner) at_partner) ∙ ap partner_of (sym second) ∙ h) in
        (
          ap partner_of (sym target) ∙ ap (λ x. x.trade_partner) at_player ∙ ap some (sym second),
          ground arith,
        )
    | inr (inl first) ↦
        let target : q ≡ t =
          same_player (some q) q t refl
            (sym (ap (λ x. x.trade_partner) at_player) ∙ ap partner_of (sym first) ∙ h) in
        (
          ap partner_of (sym target)
              ∙ ap (λ x. x.trade_partner) at_partner
              ∙ b_partner
              ∙ ap some (sym first),
          ground arith,
        )
    | inr (inr other) ↦
        let before : (w.traders r).trade_partner ≡ some t =
          sym (ap (λ x. x.trade_partner) (at_other r other.0 other.1)) ∙ h in
        let target = strangers r t other.0 other.1 before in
        let pair = s.paired r t before in
        (ap (λ x. x.trade_partner) (at_other t target.0 target.1) ∙ pair.0, pair.1)
  ]

  started-IsOrderly : (r : ℕ) → IsOrderly ((started p q i b w).traders r)
  started-IsOrderly r = elim (who r) [
    | inl second ↦
        subst (λ x. IsOrderly ((started p q i b w).traders x)) (sym second)
          (subst IsOrderly (sym at_partner) b_orderly)
    | inr (inl first) ↦
        subst (λ x. IsOrderly ((started p q i b w).traders x)) (sym first)
          (subst IsOrderly (sym at_player) (offering-IsOrderly q i))
    | inr (inr other) ↦ subst IsOrderly (sym (at_other r other.0 other.1)) (s.orderly r)
  ]

  list :
      (j : ℕ)
      → find (started p q i b w).trade_items j ≡ (if j == i then some p else find w.trade_items j)
  unfolding started
  list j = find-assign w.trade_items i j p

  -- What was offered before is still offered by the same player.
  kept :
      (r j : ℕ)
      → (w.traders r).trade_item ≡ some j
      → find (started p q i b w).trade_items j ≡ some r
  kept r j h = elim (Bool-cases (j == i)) [
    | inl same ↦
        let item : j ≡ i = ground arith in
        let bad : none ≡ some r = sym new ∙ ap (find w.trade_items) (sym item) ∙ s.listed r j h in
        ground arith
    | inr other ↦ list j ∙ rw other (s.listed r j h)
  ]

  started-listed : (r j : ℕ) → item_of r ≡ some j → find (started p q i b w).trade_items j ≡ some r
  started-listed r j h = elim (who r) [
    | inl second ↦ kept r j (
        ap (λ x. (w.traders x).trade_item) second
        ∙ sym b_item
        ∙ sym (ap (λ x. x.trade_item) at_partner)
        ∙ ap item_of (sym second)
        ∙ h)
    | inr (inl first) ↦
        let item : i ≡ j =
          same_player (some i) i j refl
            (sym (ap (λ x. x.trade_item) at_player) ∙ ap item_of (sym first) ∙ h) in
        let same : (j == i) ≡ true = ground arith in list j ∙ rw same (ap some (sym first))
    | inr (inr other) ↦ kept r j (sym (ap (λ x. x.trade_item) (at_other r other.0 other.1)) ∙ h)
  ]

  started-owned : (r j : ℕ) → find (started p q i b w).trade_items j ≡ some r → item_of r ≡ some j
  started-owned r j h = elim (Bool-cases (j == i)) [
    | inl same ↦
        let owner : p ≡ r = same_player (some p) p r refl (sym (rw same refl) ∙ sym (list j) ∙ h) in
        let item : i ≡ j = ground arith in
        ap item_of (sym owner) ∙ ap (λ x. x.trade_item) at_player ∙ ap some item
    | inr different ↦
        let before : (w.traders r).trade_item ≡ some j =
          s.owned r j (other_item (j == i) different (sym (list j) ∙ h)) in
        elim (who r) [
          | inl second ↦
              ap item_of second
              ∙ ap (λ x. x.trade_item) at_partner
              ∙ b_item
              ∙ ap (λ x. (w.traders x).trade_item) (sym second)
              ∙ before
          | inr (inl first) ↦
              let bad : none ≡ some j =
                sym p_item ∙ ap (λ x. (w.traders x).trade_item) (sym first) ∙ before in
              ground arith
          | inr (inr other) ↦ ap (λ x. x.trade_item) (at_other r other.0 other.1) ∙ before
        ]
  ]
    where
      other_item :
          (c : Bool)
          → c ≡ false
          → (if c then some p else find w.trade_items j) ≡ some r
          → find w.trade_items j ≡ some r
      other_item true e k = ground arith
      other_item false e k = k

  pub started-IsSound : IsSound (started p q i b w)
  started-IsSound = record {
    paired = started-paired;
    orderly = started-IsOrderly;
    listed = started-listed;
    owned = started-owned;
  }
