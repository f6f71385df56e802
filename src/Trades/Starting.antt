-- ===== src/Trades/Starting.antt =====
-- src/game.cpp, playerRequestTrade and internalStartTrade: how trades start.
use mathlib.Core.Path.{subst}
use otxlinux.Prelude.{
  ℕ, ◌≡◌, refl, ap, sym, ◌∙◌, inl, inr, Bool, Bool-cases, true, false, not, ◌||◌, [], ◌∷◌, Option,
  none, some, ◌==◌, if◌then◌else◌, arith,
}
use otxlinux.Prelude.Maps.{Map, find, assign}
use otxlinux.Trades.{
  acknowledged, is_idle, is_acknowledged, is_transferring, Trader, Trades, set_trader, is_busy,
  is_busy_partner, answer_offer, offer, internal_start_trade, is_taken, is_too_many,
  player_request_trade, is_known,
}
use otxlinux.Trades.Soundness.{IsOrderly, IsSound, elsewhere}
use otxlinux.Trades.Started.{idle_alone, start-cases, started, offering, started-IsSound}

-- An item that is not taken is not in the map.
not_taken-find :
    (holds : ℕ → ℕ → Bool) (i : ℕ) (entries : Map ℕ)
    → is_taken holds i entries ≡ false
    → find entries i ≡ none
unfolding is_taken find
not_taken-find holds i [] h = refl
not_taken-find holds i (e ∷ entries) h = ground (arith, not_taken-find holds i entries)

-- A player who is asked.
abbrev asked_by : ℕ → Trader → Trader
asked_by p t = record t { trade_state = acknowledged; trade_partner = some p }

asked_by-IsOrderly : (p : ℕ) (t : Trader) → t.trade_item ≡ none → IsOrderly (asked_by p t)
unfolding is_idle is_known is_acknowledged is_transferring
asked_by-IsOrderly p t h = record {
  alone = refl;
  bare = λ k. ground arith;
  asked = λ k. h;
  settled = refl;
}

offer_asked :
    (p q i : ℕ) (w : Trades)
    → (p == q) ≡ false
    → is_idle (w.traders q).trade_state ≡ true
    → offer p q i w ≡ started p q i (asked_by p (w.traders q)) w
unfolding offer answer_offer set_trader started
offer_asked p q i w apart free =
    let flipped : (q == p) ≡ false = ground arith in rw flipped (rw free refl)

offer_answered :
    (p q i : ℕ) (w : Trades)
    → (p == q) ≡ false
    → is_idle (w.traders q).trade_state ≡ false
    → offer p q i w ≡ started p q i (w.traders q) w
unfolding offer answer_offer set_trader started
offer_answered p q i w apart busy =
    let flipped : (q == p) ≡ false = ground arith in
    rw flipped
      (rw busy (λ k. record { traders = λ r. same r k; trade_items = assign w.trade_items i p }))
  where
    same :
        (r : ℕ)
        → (if r == p then offering q i else w.traders r)
          ≡ (if r == q then w.traders q else if r == p then offering q i else w.traders r)
    same r = elim (Bool-cases (r == q)) [
      | inr other ↦ rw other refl
      | inl second ↦
          let player : r ≡ q = ground arith in
          let not_first : (r == p) ≡ false = ground arith in
          rw (second, not_first) (ap w.traders player)
    ]

engaged-not_idle :
    (w : Trades) (p q : ℕ)
    → IsSound w
    → (w.traders q).trade_partner ≡ some p
    → is_idle (w.traders q).trade_state ≡ false
unfolding is_known
engaged-not_idle w p q s h = (s.orderly q).alone ∙ rw h refl

-- Nobody has a partner who is alone.
not_alone :
    (w : Trades) (r t a : ℕ)
    → IsSound w
    → (w.traders r).trade_partner ≡ some t
    → (w.traders a).trade_partner ≡ none
    → (t == a) ≡ false
not_alone w r t a s h k = elim (Bool-cases (t == a)) [
  | inr apart ↦ apart
  | inl same ↦
      let player : t ≡ a = ground arith in
      let bad : none ≡ some r =
        sym k ∙ ap (λ x. (w.traders x).trade_partner) (sym player) ∙ (s.paired r t h).0 in
      ground arith
]

offer-IsSound :
    (p q i : ℕ) (w : Trades)
    → IsSound w
    → (p == q) ≡ false
    → find w.trade_items i ≡ none
    → is_busy (w.traders p) q ≡ false
    → is_busy_partner (w.traders q) p ≡ false
    → IsSound (offer p q i w)
offer-IsSound p q i w s apart new h k = elim (start-cases p q w s h k) [
  | inl both ↦
      let alone_q : (w.traders q).trade_partner ≡ none =
        idle_alone (w.traders q) (s.orderly q) both.1 in
      let bare_q : (w.traders q).trade_item ≡ none = (s.orderly q).bare alone_q in
      subst IsSound (sym (offer_asked p q i w apart both.1)) (
        started-IsSound p q i (asked_by p (w.traders q)) w s apart refl
          (asked_by-IsOrderly p (w.traders q) bare_q) refl ((s.orderly p).bare both.0) new
          (λ r t not_p not_q partner.
            (not_alone w r t p s partner both.0, not_alone w r t q s partner alone_q)))
  | inr engaged ↦
      let back : (w.traders q).trade_partner ≡ some p = (s.paired p q engaged.0).0 in
      subst IsSound (sym (offer_answered p q i w apart (engaged-not_idle w p q s back))) (
        started-IsSound p q i (w.traders q) w s apart back (s.orderly q) refl engaged.1 new
          (λ r t not_p not_q partner. (
            elsewhere w p q r t s engaged.0 not_q partner,
            elsewhere w q p r t s back not_p partner,
          )))
]

pub internal_start_trade-IsSound :
    (p q i : ℕ) (w : Trades)
    → IsSound w
    → (p == q) ≡ false
    → find w.trade_items i ≡ none
    → IsSound (internal_start_trade p q i w).1
unfolding internal_start_trade
internal_start_trade-IsSound p q i w s apart new = elim (Bool-cases (is_busy (w.traders p) q)) [
  | inl busy ↦ rw busy s
  | inr ready ↦ elim (Bool-cases (is_busy_partner (w.traders q) p)) [
    | inl engaged ↦ rw (ready, engaged) s
    | inr open_now ↦ rw (ready, open_now) (offer-IsSound p q i w s apart new ready open_now)
  ]
]

pub player_request_trade-IsSound :
    (near allowed : Bool) (holds : ℕ → ℕ → Bool) (held : Option ℕ) (p q i : ℕ) (w : Trades)
    → IsSound w
    → IsSound (player_request_trade near allowed holds held p q i w)
unfolding player_request_trade
player_request_trade-IsSound near allowed holds held p q i w s =
    elim (Bool-cases ((q == p) || not near)) [
      | inl far ↦ rw far s
      | inr close ↦ elim (Bool-cases (is_taken holds i w.trade_items)) [
        | inl taken ↦ rw (close, taken) s
        | inr free ↦ elim (Bool-cases (is_too_many held || not allowed)) [
          | inl refused ↦ rw (close, free, refused) s
          | inr granted ↦
              rw (close, free, granted)
                (internal_start_trade-IsSound p q i w s (ground arith)
                  (not_taken-find holds i w.trade_items free))
        ]
      ]
    ]
