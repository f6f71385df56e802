-- ===== src/Trades/Ending.antt =====
-- src/game.cpp, playerAcceptTrade and internalCloseTrade: how trades end.
use mathlib.Core.Path.{subst}
use otxlinux.Prelude.{
  ℕ, ◌≡◌, refl, ap, sym, ◌∙◌, inl, inr, Bool, Bool-cases, true, false, not, ◌||◌, List, Option,
  none, some, Option-cases, ◌==◌, if◌then◌else◌, arith,
}
use otxlinux.Trades.{
  TradeState, idle, initiated, accepted, acknowledged, transferring, is_idle, is_acknowledged,
  is_accepted, is_transferring, may_accept, Trader, Trades, set_trader, no_trade, release,
  reset_trader, reset_partner, partner_transfers, internal_close_trade, Moves, set_trade_state,
  release_both, transfer, accept_with, accept_partner, player_accept_trade, check_trade_state,
  is_known, log_out,
}
use otxlinux.Trades.States.{
  item-set_trade_state, partner-set_trade_state, other-set_trade_state, list-set_trade_state,
  restated-IsSound,
}
use otxlinux.Trades.Soundness.{IsOrderly, IsSound, ended, ended-IsSound}

is_idle-eq : (s : TradeState) → is_idle s ≡ true → s ≡ idle
unfolding is_idle
is_idle-eq idle h = refl
is_idle-eq initiated h = ground arith
is_idle-eq accepted h = ground arith
is_idle-eq acknowledged h = ground arith
is_idle-eq transferring h = ground arith

-- A player without a partner is as after a reset.
pub alone-no_trade : (t : Trader) → IsOrderly t → t.trade_partner ≡ none → t ≡ no_trade
unfolding is_known
alone-no_trade t h k =
    let state : t.trade_state ≡ idle = is_idle-eq t.trade_state (h.alone ∙ rw k refl) in
    let item : t.trade_item ≡ none = h.bare k in
    λ i. record { trade_state = state i; trade_item = item i; trade_partner = k i }

reset_trader_alone :
    (p : ℕ) (w : Trades) → IsSound w → (w.traders p).trade_partner ≡ none → reset_trader p w ≡ w
unfolding reset_trader set_trader release
reset_trader_alone p w s h =
    let same = alone-no_trade (w.traders p) (s.orderly p) h in
    let list : release (w.traders p).trade_item w.trade_items ≡ w.trade_items =
      rw ((s.orderly p).bare h) refl in
    λ i. record { traders = λ r. unchanged r same i; trade_items = list i }
  where
    unchanged :
        (r : ℕ) → w.traders p ≡ no_trade → (if r == p then no_trade else w.traders r) ≡ w.traders r
    unchanged r e = elim (Bool-cases (r == p)) [
      | inl here ↦ let player : p ≡ r = ground arith in rw here (sym e ∙ ap w.traders player)
      | inr there ↦ rw there refl
    ]

reset_pair :
    (p q : ℕ) (w : Trades) → (p == q) ≡ false → reset_trader q (reset_trader p w) ≡ ended p q w
unfolding reset_trader set_trader ended
reset_pair p q w apart = let flipped : (q == p) ≡ false = ground arith in rw flipped refl

-- A trade is closed for both players, and for no others.
pub close_pair :
    (p q : ℕ) (w : Trades)
    → IsSound w
    → (w.traders p).trade_partner ≡ some q
    → internal_close_trade p w ≡ ended p q w
unfolding internal_close_trade partner_transfers reset_partner
close_pair p q w s h =
    rw (h, (s.orderly q).settled, (s.orderly p).settled) (reset_pair p q w (s.paired p q h).1)

close_alone :
    (p : ℕ) (w : Trades)
    → IsSound w
    → (w.traders p).trade_partner ≡ none
    → internal_close_trade p w ≡ w
unfolding internal_close_trade partner_transfers reset_partner
close_alone p w s h = rw (h, (s.orderly p).settled) (reset_trader_alone p w s h)

pub internal_close_trade-IsSound :
    (p : ℕ) (w : Trades) → IsSound w → IsSound (internal_close_trade p w)
internal_close_trade-IsSound p w s = elim (Option-cases (w.traders p).trade_partner) [
  | inl alone ↦ subst IsSound (sym (close_alone p w s alone)) s
  | inr pair ↦
      subst IsSound (sym (close_pair p pair.0 w s pair.1)) (ended-IsSound p pair.0 w s pair.1)
]

pub check_trade_state-IsSound :
    (p : ℕ) (is : List ℕ) (w : Trades) → IsSound w → IsSound (check_trade_state p is w)
unfolding check_trade_state
check_trade_state-IsSound p is w s = ground (arith, s, internal_close_trade-IsSound p w s)

pub log_out-IsSound : (p : ℕ) (w : Trades) → IsSound w → IsSound (log_out p w)
unfolding log_out
log_out-IsSound p w s = elim (Bool-cases (is_known (w.traders p).trade_partner)) [
  | inl known ↦ rw known (internal_close_trade-IsSound p w s)
  | inr unknown ↦ rw unknown s
]

-- While an exchange is under way, the trades of the two players can not be closed.
pub close_transferring :
    (p q : ℕ) (w : Trades)
    → (w.traders p).trade_partner ≡ some q
    → (is_transferring (w.traders p).trade_state || is_transferring (w.traders q).trade_state)
      ≡ true
    → internal_close_trade p w ≡ w
unfolding internal_close_trade partner_transfers
close_transferring p q w h k =
    let test : (is_transferring (w.traders q).trade_state
          || is_transferring (w.traders p).trade_state)
        ≡ true =
      either (is_transferring (w.traders p).trade_state) _ k in
    rw h (rw test refl)
  where
    either : (a b : Bool) → (a || b) ≡ true → (b || a) ≡ true
    either a b h = ground arith

pub transfer_pair : (m : Moves) (p q : ℕ) (w : Trades) → (transfer m p q w).1 ≡ ended p q w
unfolding transfer set_trader release_both ended
transfer_pair m p q w =
    let moving = set_trade_state transferring q (set_trade_state transferring p w) in
    let item : (r : ℕ) → (moving.traders r).trade_item ≡ (w.traders r).trade_item = λ r.
      item-set_trade_state transferring q (set_trade_state transferring p w) r
      ∙ item-set_trade_state transferring p w r in
    let list : moving.trade_items ≡ w.trade_items =
      list-set_trade_state transferring q (set_trade_state transferring p w)
      ∙ list-set_trade_state transferring p w in
    λ i. record {
      traders = λ r. left r i;
      trade_items = release (item q i) (release (item p i) (list i));
    }
  where
    left :
        (r : ℕ)
        → (if r == q
            then no_trade
            else if r == p
            then no_trade
            else (set_trade_state transferring q (set_trade_state transferring p w)).traders r)
          ≡ (if r == q then no_trade else if r == p then no_trade else w.traders r)
    left r = elim (Bool-cases (r == q)) [
      | inl second ↦ rw second refl
      | inr not_second ↦ elim (Bool-cases (r == p)) [
        | inl first ↦ rw (not_second, first) refl
        | inr not_first ↦
            ap (λ t. if r == q then no_trade else if r == p then no_trade else t)
              (other-set_trade_state transferring q (set_trade_state transferring p w) r not_second
                ∙ other-set_trade_state transferring p w r not_first)
      ]
    ]

accepting-IsSound :
    (p q : ℕ) (w : Trades)
    → IsSound w
    → (w.traders p).trade_partner ≡ some q
    → IsSound (set_trade_state accepted p w)
unfolding is_idle is_known is_acknowledged is_transferring
accepting-IsSound p q w s h = restated-IsSound p accepted w s (record {
  alone = rw h refl;
  bare = λ k. let bad : none ≡ some q = sym k ∙ h in ground arith;
  asked = λ k. ground arith;
  settled = refl;
})

accept_with-IsSound :
    (allowed : Bool) (m : Moves) (p q : ℕ) (w : Trades)
    → IsSound w
    → (w.traders p).trade_partner ≡ some q
    → IsSound (accept_with allowed m p q w).1
unfolding accept_with
accept_with-IsSound allowed m p q w s h =
    elim (Bool-cases (is_accepted (w.traders q).trade_state)) [
      | inr waiting ↦ rw waiting s
      | inl both ↦ rw both (answered allowed)
    ]
  where
    answered :
        (b : Bool)
        → IsSound (if not b then (none, internal_close_trade p w) else transfer m p q w).1
    answered true = subst IsSound (sym (transfer_pair m p q w)) (ended-IsSound p q w s h)
    answered false = internal_close_trade-IsSound p w s

accept_partner-IsSound :
    (reachable allowed : Bool) (m : Moves) (p : ℕ) (o : Option ℕ) (w : Trades)
    → IsSound w
    → (w.traders p).trade_partner ≡ o
    → IsSound (accept_partner reachable allowed m p o w).1
unfolding accept_partner
accept_partner-IsSound reachable allowed m p none w s h = s
accept_partner-IsSound true allowed m p (some q) w s h =
    accept_with-IsSound allowed m p q (set_trade_state accepted p w) (accepting-IsSound p q w s h)
      (partner-set_trade_state accepted p w p ∙ h)
accept_partner-IsSound false allowed m p (some q) w s h = s

pub player_accept_trade-IsSound :
    (reachable allowed : Bool) (m : Moves) (p : ℕ) (w : Trades)
    → IsSound w
    → IsSound (player_accept_trade reachable allowed m p w).1
unfolding player_accept_trade
player_accept_trade-IsSound reachable allowed m p w s =
    elim (Bool-cases (may_accept (w.traders p).trade_state)) [
      | inr busy ↦ rw busy s
      | inl free ↦
          rw free
            (accept_partner-IsSound reachable allowed m p (w.traders p).trade_partner w s refl)
    ]
