-- ===== src/Trades.antt =====
-- src/game.cpp, the trades between players, and Player::checkTradeState and the logout of
-- src/player.cpp. A player and an item are the numbers of their objects; `trade_items` is Game's map
-- from the items that are offered to the players who offer them. Reference counts, messages and the
-- trade events of items are left out.
pub mod Soundness
pub mod Started
pub mod Starting
pub mod States
pub mod Ending
pub mod Swap
pub mod Exchange
pub mod Reachable
mod Examples
use otxlinux.Prelude.{
  ℕ, ◌+◌, Bool, true, false, not, ◌&&◌, ◌||◌, List, [], ◌∷◌, Option, none, some, ltb, ◌==◌,
  if◌then◌else◌, length,
}
use otxlinux.Prelude.Maps.{Map, find, assign, remove}

pub data TradeState : Type 0 where
  idle initiated accepted acknowledged transferring : TradeState

unfoldable pub is_idle : TradeState → Bool
is_idle idle = true
is_idle _ = false

unfoldable pub is_acknowledged : TradeState → Bool
is_acknowledged acknowledged = true
is_acknowledged _ = false

unfoldable pub is_accepted : TradeState → Bool
is_accepted accepted = true
is_accepted _ = false

unfoldable pub is_transferring : TradeState → Bool
is_transferring transferring = true
is_transferring _ = false

unfoldable pub may_accept : TradeState → Bool
may_accept initiated = true
may_accept acknowledged = true
may_accept _ = false

pub record Trader : Type 0 where
  pub trade_state : TradeState
  pub trade_item : Option ℕ
  pub trade_partner : Option ℕ

pub record Trades : Type 0 where
  pub traders : ℕ → Trader
  pub trade_items : Map ℕ

unfoldable pub set_trader : ℕ → Trader → Trades → Trades
set_trader p t w = record w { traders = λ q. if q == p then t else w.traders q }

abbrev pub no_trade : Trader
no_trade = record { trade_state = idle; trade_item = none; trade_partner = none }

unfoldable pub is_player : Option ℕ → ℕ → Bool
is_player none q = false
is_player (some p) q = p == q

-- The states in which the two players may start, for a player and for the partner.
unfoldable pub is_busy : Trader → ℕ → Bool
is_busy t q =
    not (is_idle t.trade_state)
    && not (is_acknowledged t.trade_state && is_player t.trade_partner q)

unfoldable pub is_busy_partner : Trader → ℕ → Bool
is_busy_partner t p = not (is_idle t.trade_state) && not (is_player t.trade_partner p)

unfoldable pub answer_offer : ℕ → ℕ → Trades → Trades
answer_offer p q w =
    if is_idle (w.traders q).trade_state
    then set_trader q (record (w.traders q) { trade_state = acknowledged; trade_partner = some p })
        w
    else w

unfoldable pub offer : ℕ → ℕ → ℕ → Trades → Trades
offer p q i w = answer_offer p q (
    set_trader p (record { trade_state = initiated; trade_item = some i; trade_partner = some q })
      (record w { trade_items = assign w.trade_items i p }))

unfoldable pub internal_start_trade : ℕ → ℕ → ℕ → Trades → Bool × Trades
internal_start_trade p q i w =
    if is_busy (w.traders p) q
    then (false, w)
    else if is_busy_partner (w.traders q) p
    then (false, w)
    else (true, offer p q i w)

-- The loop of `playerRequestTrade` over the offered items. `holds` tells whether an item is a
-- container that holds another one.
unfoldable pub is_taken : (ℕ → ℕ → Bool) → ℕ → Map ℕ → Bool
is_taken holds i [] = false
is_taken holds i (e ∷ entries) =
    (i == e.key) || (holds i e.key || (holds e.key i || is_taken holds i entries))

unfoldable pub is_too_many : Option ℕ → Bool
is_too_many none = false
is_too_many (some n) = ltb 100 (n + 1)

-- `near` stands for the tests of the places and of the item before the loop, `held` is what
-- `getItemHoldingCount` counts in a container, `allowed` the answer of the script.
unfoldable pub player_request_trade :
    (near allowed : Bool) (holds : ℕ → ℕ → Bool) (held : Option ℕ) → ℕ → ℕ → ℕ → Trades → Trades
player_request_trade near allowed holds held p q i w =
    if (q == p) || not near
    then w
    else if is_taken holds i w.trade_items
    then w
    else if is_too_many held || not allowed
    then w
    else (internal_start_trade p q i w).1

unfoldable pub release : Option ℕ → Map ℕ → Map ℕ
release none entries = entries
release (some i) entries = remove entries i

-- What `internalCloseTrade` does for each of the two.
unfoldable pub reset_trader : ℕ → Trades → Trades
reset_trader p w =
    set_trader p no_trade
      (record w { trade_items = release (w.traders p).trade_item w.trade_items })

unfoldable pub reset_partner : Option ℕ → Trades → Trades
reset_partner none w = w
reset_partner (some q) w = reset_trader q w

unfoldable pub partner_transfers : Option ℕ → Trades → Bool
partner_transfers none w = false
partner_transfers (some q) w = is_transferring (w.traders q).trade_state

unfoldable pub internal_close_trade : ℕ → Trades → Trades
internal_close_trade p w =
    let t = w.traders p in
    if partner_transfers t.trade_partner w || is_transferring t.trade_state
    then w
    else reset_partner t.trade_partner (reset_trader p w)

-- Whether the calls of the exchange return no error.
pub record Moves : Type 0 where
  pub add_first : Bool
  pub add_second : Bool
  pub remove_first : Bool
  pub remove_second : Bool
  pub move_first : Bool
  pub move_second : Bool

-- The calls whose errors end the exchange before an item has moved. The first four only test.
unfoldable pub passes : Moves → Bool
passes m = m.add_first && (m.add_second && (m.remove_first && (m.remove_second && m.move_first)))

-- The item that the partner has got, with the one that the player has got for it: an error of the
-- second move is ignored. `internalAddItem` returns an error for an item that is null.
unfoldable pub exchange_items : Moves → Option ℕ → Option ℕ → Option (ℕ × Option ℕ)
exchange_items m none j = none
exchange_items m (some i) none = none
exchange_items m (some i) (some j) =
    if passes m then some (i, if m.move_second then some j else none) else none

unfoldable pub set_trade_state : TradeState → ℕ → Trades → Trades
set_trade_state s p w = set_trader p (record (w.traders p) { trade_state = s }) w

unfoldable pub release_both : ℕ → ℕ → Trades → Trades
release_both p q w = record w {
  trade_items = release (w.traders q).trade_item (release (w.traders p).trade_item w.trade_items);
}

-- With the items that change hands. The moves may make the server close the trade of one of the two,
-- which does nothing while both are in the state `transferring`.
unfoldable pub transfer : Moves → ℕ → ℕ → Trades → Option (ℕ × Option ℕ) × Trades
transfer m p q w =
    let moving =
      release_both p q (set_trade_state transferring q (set_trade_state transferring p w)) in
    (
      exchange_items m (moving.traders p).trade_item (moving.traders q).trade_item,
      set_trader q no_trade (set_trader p no_trade moving),
    )

unfoldable pub accept_with :
    (allowed : Bool) → Moves → ℕ → ℕ → Trades → Option (ℕ × Option ℕ) × Trades
accept_with allowed m p q w =
    if not (is_accepted (w.traders q).trade_state)
    then (none, w)
    else if not allowed
    then (none, internal_close_trade p w)
    else transfer m p q w

unfoldable pub accept_partner :
    (reachable allowed : Bool) → Moves → ℕ → Option ℕ → Trades → Option (ℕ × Option ℕ) × Trades
accept_partner reachable allowed m p none w = (none, w)
accept_partner reachable allowed m p (some q) w =
    if reachable then accept_with allowed m p q (set_trade_state accepted p w) else (none, w)

unfoldable pub player_accept_trade :
    (reachable allowed : Bool) → Moves → ℕ → Trades → Option (ℕ × Option ℕ) × Trades
player_accept_trade reachable allowed m p w =
    if may_accept (w.traders p).trade_state
    then accept_partner reachable allowed m p (w.traders p).trade_partner w
    else (none, w)

unfoldable pub has_item : List ℕ → Option ℕ → Bool
has_item is none = false
has_item [] (some i) = false
has_item (j ∷ is) (some i) = (j == i) || has_item is (some i)

-- An item goes away, with the containers that it lies in, the innermost first.
unfoldable pub check_trade_state : ℕ → List ℕ → Trades → Trades
check_trade_state p is w =
    if is_transferring (w.traders p).trade_state
    then w
    else if has_item is (w.traders p).trade_item
    then internal_close_trade p w
    else w

unfoldable pub is_known : Option ℕ → Bool
is_known none = false
is_known (some q) = true

unfoldable pub log_out : ℕ → Trades → Trades
log_out p w = if is_known (w.traders p).trade_partner then internal_close_trade p w else w
