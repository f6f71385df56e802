-- ===== src/Trades/Swap.antt =====
-- src/game.cpp, playerAcceptTrade: the items that a transfer moves.
use mathlib.Core.Path.{ap₂}
use mathlib.Core.Option.{some-injective}
use otxlinux.Prelude.{
  ℕ, ◌≡◌, refl, ap, sym, ◌∙◌, inl, inr, Bool, Bool-cases, true, false, Option, none, some, ◌==◌,
  if◌then◌else◌, arith,
}
use otxlinux.Prelude.Maps.{find}
use otxlinux.Trades.{
  transferring, is_accepted, Trades, no_trade, is_player, release_both, Moves, passes,
  exchange_items, set_trade_state, transfer,
}
use otxlinux.Trades.Soundness.{ended, find-release}
use otxlinux.Trades.States.{item-set_trade_state}

-- What the player `p` gets for the item `j` of the partner.
abbrev pub counter_item : Moves → ℕ → Option ℕ
counter_item m j = if m.move_second then some j else none

-- The partner `q` of `p`, who had accepted before, gets the item `i` that `p` had offered, and `p`
-- gets `o`, which is the item `j` that `q` had offered unless its move fails. The script allows it
-- and all tests pass. Then both are idle and neither item is offered.
pub record IsSwap (w w' : Trades) (allowed : Bool) (m : Moves) (p q i j : ℕ) (o : Option ℕ)
    : Type 0 where
  pub consent : allowed ≡ true
  pub tested : passes m ≡ true
  pub partners : (w.traders p).trade_partner ≡ some q
  pub agreed : is_accepted (w.traders q).trade_state ≡ true
  pub given : (w.traders p).trade_item ≡ some i
  pub taken : (w.traders q).trade_item ≡ some j
  pub received : o ≡ counter_item m j
  pub over : (w'.traders p ≡ no_trade) × (w'.traders q ≡ no_trade)
  pub free : (find w'.trade_items i ≡ none) × (find w'.trade_items j ≡ none)

passed_some :
    (b : Bool) (x y : ℕ × Option ℕ)
    → (if b then some x else none) ≡ some y
    → (b ≡ true) × (some x ≡ some y)
passed_some true x y h = (refl, h)
passed_some false x y h = ground arith

exchange_items-some :
    (m : Moves) (a b : Option ℕ) (i : ℕ) (o : Option ℕ)
    → exchange_items m a b ≡ some (i, o)
    → (j : ℕ) × (a ≡ some i) × (b ≡ some j) × (passes m ≡ true) × (o ≡ counter_item m j)
unfolding exchange_items
exchange_items-some m none b i o h = ground arith
exchange_items-some m (some i') none i o h = ground arith
exchange_items-some m (some i') (some j) i o h =
    let (tests, same) = passed_some (passes m) (i', counter_item m j) (i, o) h in
    let pair : (i', counter_item m j) ≡ (i, o) = some-injective _ _ same in
    (j, ap (λ x. some x.0) pair, refl, tests, sym (ap (λ x. x.1) pair))

moved :
    (p q : ℕ) (w : Trades) (r : ℕ)
    → ((set_trade_state transferring q (set_trade_state transferring p w)).traders r).trade_item
      ≡ (w.traders r).trade_item
moved p q w r =
    item-set_trade_state transferring q (set_trade_state transferring p w) r
    ∙ item-set_trade_state transferring p w r

pub transfer-items :
    (m : Moves) (p q i : ℕ) (o : Option ℕ) (w : Trades)
    → (transfer m p q w).0 ≡ some (i, o)
    → (j : ℕ) × ((w.traders p).trade_item ≡ some i)
      × ((w.traders q).trade_item ≡ some j)
      × (passes m ≡ true)
      × (o ≡ counter_item m j)
unfolding transfer release_both
transfer-items m p q i o w h =
    let (j, first, second, tests, got) = exchange_items-some m _ _ i o h in
    (j, sym (moved p q w p) ∙ first, sym (moved p q w q) ∙ second, tests, got)

-- And the other way round.
pub items-transfer :
    (m : Moves) (p q i j : ℕ) (w : Trades)
    → (w.traders p).trade_item ≡ some i
    → (w.traders q).trade_item ≡ some j
    → passes m ≡ true
    → (transfer m p q w).0 ≡ some (i, counter_item m j)
unfolding transfer release_both exchange_items
items-transfer m p q i j w h k tests =
    ap₂ (exchange_items m) (moved p q w p ∙ h) (moved p q w q ∙ k) ∙ rw tests refl

owns : (o : Option ℕ) (i : ℕ) → o ≡ some i → is_player o i ≡ true
unfolding is_player
owns none i h = ground arith
owns (some j) i h = let same : j ≡ i = some-injective j i h in ground arith

pub ended-over :
    (p q : ℕ) (w : Trades)
    → ((ended p q w).traders p ≡ no_trade) × ((ended p q w).traders q ≡ no_trade)
unfolding ended
ended-over p q w =
    let same_p : (p == p) ≡ true = ground arith in
    let same_q : (q == q) ≡ true = ground arith in
    (
      elim (Bool-cases (p == q)) [ inl one ↦ rw one refl | inr two ↦ rw (two, same_p) refl ],
      rw same_q refl,
    )

pub ended-free :
    (p q i j : ℕ) (w : Trades)
    → (w.traders p).trade_item ≡ some i
    → (w.traders q).trade_item ≡ some j
    → (find (ended p q w).trade_items i ≡ none) × (find (ended p q w).trade_items j ≡ none)
unfolding ended
ended-free p q i j w h k = (
  find-release (w.traders q).trade_item _ i
      ∙ either (is_player (w.traders q).trade_item i) _
          (find-release (w.traders p).trade_item w.trade_items i ∙ rw (owns _ i h) refl),
  find-release (w.traders q).trade_item _ j ∙ rw (owns _ j k) refl,
)
  where
    either : (b : Bool) (o : Option ℕ) → o ≡ none → (if b then none else o) ≡ none
    either true o e = refl
    either false o e = e
