-- ===== src/Trades/Exchange.antt =====
-- src/game.cpp, playerAcceptTrade: when items change hands.
use mathlib.Core.Path.{subst}
use otxlinux.Prelude.{
  ℕ, ◌≡◌, refl, ◌↔◌, ap, sym, ◌∙◌, Bool, true, false, not, Option, none, some, ◌==◌, if◌then◌else◌,
  arith,
}
use otxlinux.Prelude.Maps.{find}
use otxlinux.Trades.{
  accepted, is_accepted, may_accept, Trades, no_trade, internal_close_trade, Moves, set_trade_state,
  transfer, accept_with, accept_partner, player_accept_trade,
}
use otxlinux.Trades.Soundness.{IsSound}
use otxlinux.Trades.States.{partner-set_trade_state, item-set_trade_state, other-set_trade_state}
use otxlinux.Trades.Ending.{transfer_pair}
use otxlinux.Trades.Swap.{IsSwap, transfer-items, items-transfer, ended-over, ended-free}

-- The same in an acceptance by a player in a state that allows one, within reach of the partner.
pub record IsExchange (w w' : Trades) (reachable allowed : Bool) (m : Moves) (p q i j : ℕ)
    (o : Option ℕ) : Type 0 where
  pub ready : may_accept (w.traders p).trade_state ≡ true
  pub near : reachable ≡ true
  pub swap : IsSwap w w' allowed m p q i j o

-- The three ends of an acceptance, by the tests of the partner's state and of the script.
ends-IsSwap :
    (both allowed : Bool) (m : Moves) (p q i : ℕ) (o : Option ℕ) (w : Trades)
    → is_accepted (w.traders q).trade_state ≡ both
    → (w.traders p).trade_partner ≡ some q
    → let r =
        if not both
        then (none, w)
        else if not allowed
        then (none, internal_close_trade p w)
        else transfer m p q w in
      r.0 ≡ some (i, o) → (j : ℕ) × IsSwap w r.1 allowed m p q i j o
ends-IsSwap false allowed m p q i o w h k e = ground arith
ends-IsSwap true false m p q i o w h k e = ground arith
ends-IsSwap true true m p q i o w h k e =
    let (j, first, second, tests, got) = transfer-items m p q i o w e in
    let over = ended-over p q w in
    let free = ended-free p q i j w first second in
    let end = sym (transfer_pair m p q w) in
    (
      j,
      record {
        consent = refl;
        tested = tests;
        partners = k;
        agreed = h;
        given = first;
        taken = second;
        received = got;
        over = subst (λ v. (v.traders p ≡ no_trade) × (v.traders q ≡ no_trade)) end over;
        free = subst (λ v. (find v.trade_items i ≡ none) × (find v.trade_items j ≡ none)) end free;
      },
    )

accept_with-IsSwap :
    (allowed : Bool) (m : Moves) (p q i : ℕ) (o : Option ℕ) (w : Trades)
    → (w.traders p).trade_partner ≡ some q
    → (accept_with allowed m p q w).0 ≡ some (i, o)
    → (j : ℕ) × IsSwap w (accept_with allowed m p q w).1 allowed m p q i j o
unfolding accept_with
accept_with-IsSwap allowed m p q i o w h e =
    ends-IsSwap (is_accepted (w.traders q).trade_state) allowed m p q i o w refl h e

-- Seen from the state before `p` has accepted.
before-IsSwap :
    (allowed : Bool) (m : Moves) (p q i j : ℕ) (o : Option ℕ) (w w' : Trades)
    → (p == q) ≡ false
    → (w.traders p).trade_partner ≡ some q
    → IsSwap (set_trade_state accepted p w) w' allowed m p q i j o
    → IsSwap w w' allowed m p q i j o
before-IsSwap allowed m p q i j o w w' apart h x =
    let flipped : (q == p) ≡ false = ground arith in
    record {
      consent = x.consent;
      tested = x.tested;
      partners = h;
      agreed =
          sym (ap (λ t. is_accepted t.trade_state) (other-set_trade_state accepted p w q flipped))
          ∙ x.agreed;
      given = sym (item-set_trade_state accepted p w p) ∙ x.given;
      taken = sym (item-set_trade_state accepted p w q) ∙ x.taken;
      received = x.received;
      over = x.over;
      free = x.free;
    }

-- The world after the call, and what it has exchanged.
accept_partner-IsSwap :
    (reachable allowed : Bool) (m : Moves) (p i : ℕ) (o r : Option ℕ) (w : Trades)
    → IsSound w
    → (w.traders p).trade_partner ≡ r
    → (accept_partner reachable allowed m p r w).0 ≡ some (i, o)
    → (reachable ≡ true)
      × ((q : ℕ) × (j : ℕ) × IsSwap w
            (accept_partner reachable allowed m p r w).1
            allowed
            m
            p
            q
            i
            j
            o)
unfolding accept_partner
accept_partner-IsSwap reachable allowed m p i o none w s h e = ground arith
accept_partner-IsSwap false allowed m p i o (some q) w s h e = ground arith
accept_partner-IsSwap true allowed m p i o (some q) w s h e =
    let (j, x) =
      accept_with-IsSwap allowed m p q i o (set_trade_state accepted p w)
        (partner-set_trade_state accepted p w p ∙ h) e in
    (refl, (q, j, before-IsSwap allowed m p q i j o w _ (s.paired p q h).1 h x))

-- The test of the state of `p`.
tested-IsExchange :
    (b reachable allowed : Bool) (m : Moves) (w : Trades) (r : Option (ℕ × Option ℕ) × Trades)
    (p i : ℕ) (o : Option ℕ)
    → may_accept (w.traders p).trade_state ≡ b
    → (r.0 ≡ some (i, o)
        → (reachable ≡ true) × ((q : ℕ) × (j : ℕ) × IsSwap w r.1 allowed m p q i j o))
    → (if b then r else (none, w)).0 ≡ some (i, o)
    → (q : ℕ) × (j : ℕ) × IsExchange w (if b then r else (none, w)).1 reachable allowed m p q i j o
tested-IsExchange true reachable allowed m w r p i o h f e =
    let (near, (q, j, x)) = f e in (q, j, record { ready = h; near = near; swap = x })
tested-IsExchange false reachable allowed m w r p i o h f e = ground arith

-- All conditions together are enough.
exchange-result :
    (reachable allowed : Bool) (m : Moves) (p q i j : ℕ) (o : Option ℕ) (w w' : Trades)
    → IsSound w
    → IsExchange w w' reachable allowed m p q i j o
    → (player_accept_trade reachable allowed m p w).0 ≡ some (i, o)
unfolding player_accept_trade accept_partner accept_with
exchange-result reachable allowed m p q i j o w w' s x =
    let apart = (s.paired p q x.swap.partners).1 in
    let flipped : (q == p) ≡ false = ground arith in
    let agreed : is_accepted ((set_trade_state accepted p w).traders q).trade_state ≡ true =
      ap (λ t. is_accepted t.trade_state) (other-set_trade_state accepted p w q flipped)
      ∙ x.swap.agreed in
    let items =
      items-transfer m p q i j (set_trade_state accepted p w)
        (item-set_trade_state accepted p w p ∙ x.swap.given)
        (item-set_trade_state accepted p w q ∙ x.swap.taken) x.swap.tested in
    rw (x.ready, x.swap.partners, x.near, agreed, x.swap.consent)
      (items ∙ ap (λ r. some (i, r)) (sym x.swap.received))

-- In a state as it is between two commands, an acceptance moves the item `i` exactly if the player
-- may accept and reaches the partner, the partner has accepted before, the script allows it, each of
-- the two has offered an item, the player `i`, and the tests and the first move of the server return
-- no error. Then the partner gets `i` and the player gets `o`, which is the item of the partner, or
-- nothing if the second move fails; afterwards both are idle and neither item is offered.
pub player_accept_trade-IsExchange :
    (reachable allowed : Bool) (m : Moves) (p i : ℕ) (o : Option ℕ) (w : Trades)
    → IsSound w
    → ((player_accept_trade reachable allowed m p w).0 ≡ some (i, o)) ↔ (
        (q : ℕ) × (j : ℕ) × IsExchange w
          (player_accept_trade reachable allowed m p w).1
          reachable
          allowed
          m
          p
          q
          i
          j
          o)
player_accept_trade-IsExchange reachable allowed m p i o w s = (
  (λ e.
      unfold player_accept_trade in
      tested-IsExchange (may_accept (w.traders p).trade_state) reachable allowed m w
        (accept_partner reachable allowed m p (w.traders p).trade_partner w) p i o refl
        (accept_partner-IsSwap reachable allowed m p i o (w.traders p).trade_partner w s refl) e),
  (λ (q, j, x). exchange-result reachable allowed m p q i j o w _ s x),
)
