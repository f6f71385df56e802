-- ===== src/Trades/Soundness.antt =====
-- src/game.cpp, the trades: what is true of the players and the offered items between two commands.
use mathlib.Core.Path.{subst}
use mathlib.Core.Option.{some-injective}
use otxlinux.Prelude.{
  ◌⊎◌, ℕ, ◌≡◌, refl, ap, sym, ◌∙◌, inl, inr, Bool, Bool-cases, true, false, not, [], Option, none,
  some, ◌==◌, if◌then◌else◌, arith,
}
use otxlinux.Prelude.Maps.{Map, find, find-remove}
use otxlinux.Trades.{
  is_idle, is_acknowledged, is_transferring, Trader, Trades, no_trade, is_player, release, is_known,
}

-- A player without a partner is idle and offers nothing, a player who was only asked offers nothing,
-- and no exchange is under way.
pub record IsOrderly (t : Trader) : Type 0 where
  pub alone : is_idle t.trade_state ≡ not (is_known t.trade_partner)
  pub bare : t.trade_partner ≡ none → t.trade_item ≡ none
  pub asked : is_acknowledged t.trade_state ≡ true → t.trade_item ≡ none
  pub settled : is_transferring t.trade_state ≡ false

pub no_trade-IsOrderly : IsOrderly no_trade
unfolding is_idle is_known is_acknowledged is_transferring
no_trade-IsOrderly = record { alone = refl; bare = λ h. refl; asked = λ h. refl; settled = refl }

pub record IsSound (w : Trades) : Type 0 where
  -- The partner of a partner is the player.
  pub paired :
      (p q : ℕ)
      → (w.traders p).trade_partner ≡ some q
      → ((w.traders q).trade_partner ≡ some p) × ((p == q) ≡ false)
  pub orderly : (p : ℕ) → IsOrderly (w.traders p)
  -- The map has exactly the items that are offered, with their owners.
  pub listed : (p i : ℕ) → (w.traders p).trade_item ≡ some i → find w.trade_items i ≡ some p
  pub owned : (p i : ℕ) → find w.trade_items i ≡ some p → (w.traders p).trade_item ≡ some i

-- Nobody trades.
abbrev pub start : Trades
start = record { traders = λ p. no_trade; trade_items = [] }

pub start-IsSound : IsSound start
unfolding find
start-IsSound = record {
  paired = λ p q h. ground arith;
  orderly = λ p. no_trade-IsOrderly;
  listed = λ p i h. ground arith;
  owned = λ p i h. ground arith;
}

-- What is left when two players have stopped trading with each other.
unfoldable pub ended : ℕ → ℕ → Trades → Trades
ended p q w = record {
  traders = λ r. if r == q then no_trade else if r == p then no_trade else w.traders r;
  trade_items = release (w.traders q).trade_item (release (w.traders p).trade_item w.trade_items);
}

pub find-release :
    (o : Option ℕ) (entries : Map ℕ) (i : ℕ)
    → find (release o entries) i ≡ (if is_player o i then none else find entries i)
unfolding release is_player
find-release none entries i = refl
find-release (some j) entries i = find-remove entries j i ∙ ground arith

pub same_player : (o : Option ℕ) (q r : ℕ) → o ≡ some q → o ≡ some r → q ≡ r
same_player o q r h k = some-injective q r (sym h ∙ k)

-- Whoever has another partner than `b` is not the partner of `a`, who trades with `b`.
pub elsewhere :
    (w : Trades) (a b r t : ℕ)
    → IsSound w
    → (w.traders a).trade_partner ≡ some b
    → (r == b) ≡ false
    → (w.traders r).trade_partner ≡ some t
    → (t == a) ≡ false
elsewhere w a b r t s h other k = elim (Bool-cases (t == a)) [
  | inr apart ↦ apart
  | inl same ↦
      let player : t ≡ a = ground arith in
      let back : (w.traders a).trade_partner ≡ some r =
        ap (λ x. (w.traders x).trade_partner) (sym player) ∙ (s.paired r t k).0 in
      let clash : b ≡ r = same_player (w.traders a).trade_partner b r h back in ground arith
]

-- An item that two players offer is offered by one player.
pub one_owner :
    (w : Trades) (p r i : ℕ)
    → IsSound w
    → (w.traders p).trade_item ≡ some i
    → (w.traders r).trade_item ≡ some i
    → p ≡ r
one_owner w p r i s h k = same_player (find w.trade_items i) p r (s.listed p i h) (s.listed r i k)

is_player-some : (o : Option ℕ) (i : ℕ) → is_player o i ≡ true → o ≡ some i
unfolding is_player
is_player-some none i h = ground arith
is_player-some (some j) i h = ap some (ground arith)

absurd_some : {A : Type 0} (o : Option ℕ) (i : ℕ) → is_player o i ≡ false → o ≡ some i → A
unfolding is_player
absurd_some none i h k = ground arith
absurd_some (some j) i h k = let same : j ≡ i = some-injective j i k in ground arith

peel :
    (b : Bool) (o : Option ℕ) (r : ℕ)
    → (if b then none else o) ≡ some r
    → (b ≡ false) × (o ≡ some r)
peel true o r h = ground arith
peel false o r h = (refl, h)

-- The players `p` and `q` trade with each other.
module _ (p q : ℕ) (w : Trades) (s : IsSound w)
    (partners : (w.traders p).trade_partner ≡ some q) where
  -- A trader after the end is idle or another one than the two.
  ended-cases :
      (r : ℕ)
      → ((ended p q w).traders r ≡ no_trade)
        ⊎ (((ended p q w).traders r ≡ w.traders r) × ((r == p) ≡ false) × ((r == q) ≡ false))
  unfolding ended
  ended-cases r = elim (Bool-cases (r == q)) [
    | inl second ↦ rw second (inl refl)
    | inr not_second ↦ elim (Bool-cases (r == p)) [
      | inl first ↦ rw (not_second, first) (inl refl)
      | inr not_first ↦ rw (not_second, not_first) (inr (refl, refl, refl))
    ]
  ]

  ended-other :
      (r : ℕ) → (r == p) ≡ false → (r == q) ≡ false → (ended p q w).traders r ≡ w.traders r
  unfolding ended
  ended-other r h k = rw (k, h) refl

  back : (w.traders q).trade_partner ≡ some p
  back = (s.paired p q partners).0

  ended-paired :
      (r t : ℕ)
      → ((ended p q w).traders r).trade_partner ≡ some t
      → (((ended p q w).traders t).trade_partner ≡ some r) × ((r == t) ≡ false)
  ended-paired r t h = elim (ended-cases r) [
    | inl gone ↦ let bad : none ≡ some t = sym (ap (λ x. x.trade_partner) gone) ∙ h in ground arith
    | inr kept ↦
        let before : (w.traders r).trade_partner ≡ some t =
          sym (ap (λ x. x.trade_partner) kept.0) ∙ h in
        let not_first : (t == p) ≡ false = elsewhere w p q r t s partners kept.2 before in
        let not_second : (t == q) ≡ false = elsewhere w q p r t s back kept.1 before in
        let pair = s.paired r t before in
        (ap (λ x. x.trade_partner) (ended-other t not_first not_second) ∙ pair.0, pair.1)
  ]

  ended-listed :
      (r i : ℕ)
      → ((ended p q w).traders r).trade_item ≡ some i
      → find (ended p q w).trade_items i ≡ some r
  unfolding ended
  ended-listed r i h = elim (ended-cases r) [
    | inl gone ↦ let bad : none ≡ some i = sym (ap (λ x. x.trade_item) gone) ∙ h in ground arith
    | inr kept ↦
        let before : (w.traders r).trade_item ≡ some i = sym (ap (λ x. x.trade_item) kept.0) ∙ h in
        let not_first : is_player (w.traders p).trade_item i ≡ false =
          other_item p r i before kept.1 in
        let not_second : is_player (w.traders q).trade_item i ≡ false =
          other_item q r i before kept.2 in
        find-release (w.traders q).trade_item _ i
        ∙ rw not_second (
            find-release (w.traders p).trade_item w.trade_items i
            ∙ rw not_first (s.listed r i before))
  ]
    where
      other_item :
          (a r i : ℕ)
          → (w.traders r).trade_item ≡ some i
          → (r == a) ≡ false
          → is_player (w.traders a).trade_item i ≡ false
      other_item a r i h k = elim (Bool-cases (is_player (w.traders a).trade_item i)) [
        | inr apart ↦ apart
        | inl same ↦
            let clash : a ≡ r =
              one_owner w a r i s (is_player-some (w.traders a).trade_item i same) h in
            ground arith
      ]

  ended-owned :
      (r i : ℕ)
      → find (ended p q w).trade_items i ≡ some r
      → ((ended p q w).traders r).trade_item ≡ some i
  unfolding ended
  ended-owned r i h =
      let outer =
        peel (is_player (w.traders q).trade_item i) _ r
          (sym (find-release (w.traders q).trade_item _ i) ∙ h) in
      let inner =
        peel (is_player (w.traders p).trade_item i) _ r
          (sym (find-release (w.traders p).trade_item w.trade_items i) ∙ outer.1) in
      let before : (w.traders r).trade_item ≡ some i = s.owned r i inner.1 in
      ap (λ x. x.trade_item)
        (ended-other r (unlike p r i inner.0 before) (unlike q r i outer.0 before))
      ∙ before
    where
      unlike :
          (a r i : ℕ)
          → is_player (w.traders a).trade_item i ≡ false
          → (w.traders r).trade_item ≡ some i
          → (r == a) ≡ false
      unlike a r i h k = elim (Bool-cases (r == a)) [
        | inr apart ↦ apart
        | inl same ↦
            let player : r ≡ a = ground arith in
            absurd_some (w.traders a).trade_item i h
              (ap (λ x. (w.traders x).trade_item) (sym player) ∙ k)
      ]

  pub ended-IsSound : IsSound (ended p q w)
  ended-IsSound = record {
    paired = ended-paired;
    orderly = λ r. elim (ended-cases r) [
      | inl gone ↦ subst IsOrderly (sym gone) no_trade-IsOrderly
      | inr kept ↦ subst IsOrderly (sym kept.0) (s.orderly r)
    ];
    listed = ended-listed;
    owned = ended-owned;
  }
