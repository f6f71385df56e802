-- ===== src/Trades/States.antt =====
-- src/player.h, setTradeState: a player gets another state, and nothing else changes.
use mathlib.Core.Path.{subst}
use otxlinux.Prelude.{ℕ, ◌≡◌, refl, ap, sym, ◌∙◌, inl, inr, Bool-cases, true, false, ◌==◌, arith}
use otxlinux.Prelude.Maps.{find}
use otxlinux.Trades.{TradeState, Trades, set_trader, set_trade_state}
use otxlinux.Trades.Soundness.{IsOrderly, IsSound}

module _ (state : TradeState) (a : ℕ) (w : Trades) where
  pub item-set_trade_state :
      (r : ℕ) → ((set_trade_state state a w).traders r).trade_item ≡ (w.traders r).trade_item
  unfolding set_trade_state set_trader
  item-set_trade_state r = elim (Bool-cases (r == a)) [
    | inl here ↦
        let player : a ≡ r = ground arith in rw here (ap (λ x. (w.traders x).trade_item) player)
    | inr there ↦ rw there refl
  ]

  pub partner-set_trade_state :
      (r : ℕ) → ((set_trade_state state a w).traders r).trade_partner ≡ (w.traders r).trade_partner
  unfolding set_trade_state set_trader
  partner-set_trade_state r = elim (Bool-cases (r == a)) [
    | inl here ↦
        let player : a ≡ r = ground arith in rw here (ap (λ x. (w.traders x).trade_partner) player)
    | inr there ↦ rw there refl
  ]

  pub other-set_trade_state :
      (r : ℕ) → (r == a) ≡ false → (set_trade_state state a w).traders r ≡ w.traders r
  unfolding set_trade_state set_trader
  other-set_trade_state r h = rw h refl

  pub self-set_trade_state :
      (r : ℕ)
      → (r == a) ≡ true
      → (set_trade_state state a w).traders r ≡ record (w.traders a) { trade_state = state }
  unfolding set_trade_state set_trader
  self-set_trade_state r h = rw h refl

  pub list-set_trade_state : (set_trade_state state a w).trade_items ≡ w.trade_items
  unfolding set_trade_state set_trader
  list-set_trade_state = refl

-- A trader gets another state.
pub restated-IsSound :
    (p : ℕ) (state : TradeState) (w : Trades)
    → IsSound w
    → IsOrderly (record (w.traders p) { trade_state = state })
    → IsSound (set_trade_state state p w)
restated-IsSound p state w s h = record {
  paired = λ a b k.
      let pair = s.paired a b (sym (partner-set_trade_state state p w a) ∙ k) in
      (partner-set_trade_state state p w b ∙ pair.0, pair.1);
  orderly = λ r. elim (Bool-cases (r == p)) [
    | inl here ↦ subst IsOrderly (sym (self-set_trade_state state p w r here)) h
    | inr there ↦ subst IsOrderly (sym (other-set_trade_state state p w r there)) (s.orderly r)
  ];
  listed = λ a i k.
      ap (λ l. find l i) (list-set_trade_state state p w)
      ∙ s.listed a i (sym (item-set_trade_state state p w a) ∙ k);
  owned = λ a i k.
      item-set_trade_state state p w a
      ∙ s.owned a i (sym (ap (λ l. find l i) (list-set_trade_state state p w)) ∙ k);
}
