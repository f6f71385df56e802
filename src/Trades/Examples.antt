-- ===== src/Trades/Examples.antt =====
-- src/game.cpp, the trades: two players exchange what they offer.
use otxlinux.Prelude.{ℕ, ◌≡◌, refl, ◌↔◌, Bool, true, false, List, [], ◌∷◌, Option, none, some}
use otxlinux.Trades.{Trader, Trades, Moves, player_accept_trade}
use otxlinux.Trades.Soundness.{IsSound, start}
use otxlinux.Trades.Exchange.{IsExchange, player_accept_trade-IsExchange}
use otxlinux.Trades.Reachable.{
  Command, requests, accepts, run_trade, run_trades, run_trades-IsSound,
}

abbrev apart : ℕ → ℕ → Bool
apart i j = false

abbrev all_right : Moves
all_right = record {
  add_first = true;
  add_second = true;
  remove_first = true;
  remove_second = true;
  move_first = true;
  move_second = true;
}

-- Player 1 offers the item 10, player 2 the item 20, and player 2 accepts.
abbrev commands : List Command
commands =
    requests true true apart none 1 2 10
    ∷ requests true true apart none 2 1 20
    ∷ accepts true true all_right 2
    ∷ []

run_trades-IsSound_example : IsSound (run_trades commands start)
run_trades-IsSound_example = run_trades-IsSound commands

exchanges :
    (player_accept_trade true true all_right 1 (run_trades commands start)).0 ≡ some (10, some 20)
unfolding run_trades run_trade player_accept_trade otxlinux.Prelude.Maps.assign
    otxlinux.Prelude.Maps.remove otxlinux.Prelude.Maps.find otxlinux.Trades.may_accept
    otxlinux.Trades.player_request_trade otxlinux.Trades.is_taken otxlinux.Trades.is_too_many
    otxlinux.Trades.internal_start_trade otxlinux.Trades.is_busy otxlinux.Trades.is_idle
    otxlinux.Trades.is_busy_partner otxlinux.Trades.offer otxlinux.Trades.answer_offer
    otxlinux.Trades.set_trader otxlinux.Trades.is_acknowledged otxlinux.Trades.is_player
    otxlinux.Trades.accept_partner otxlinux.Trades.accept_with otxlinux.Trades.exchange_items
    otxlinux.Trades.passes otxlinux.Trades.internal_close_trade otxlinux.Trades.is_accepted
    otxlinux.Trades.is_transferring otxlinux.Trades.partner_transfers otxlinux.Trades.release
    otxlinux.Trades.release_both otxlinux.Trades.reset_trader otxlinux.Trades.reset_partner
    otxlinux.Trades.set_trade_state otxlinux.Trades.transfer
exchanges = refl

player_accept_trade-IsExchange_example :
    ((player_accept_trade true true all_right 1 (run_trades commands start)).0 ≡ some (10, some 20))
    ↔ ((q : ℕ) × (j : ℕ) × IsExchange
          (run_trades commands start)
          (player_accept_trade true true all_right 1 (run_trades commands start)).1
          true
          true
          all_right
          1
          q
          10
          j
          (some 20))
player_accept_trade-IsExchange_example =
    player_accept_trade-IsExchange true true all_right 1 10 (some 20) (run_trades commands start)
      (run_trades-IsSound commands)

ten_for_twenty :
    (q : ℕ) × (j : ℕ) × IsExchange
      (run_trades commands start)
      (player_accept_trade true true all_right 1 (run_trades commands start)).1
      true
      true
      all_right
      1
      q
      10
      j
      (some 20)
ten_for_twenty = player_accept_trade-IsExchange_example.0 exchanges

-- A player who was only asked may accept, and the exchange then finds no second item.
abbrev hasty : List Command
hasty = requests true true apart none 1 2 10 ∷ accepts true true all_right 2 ∷ []

nothing_for_ten : (player_accept_trade true true all_right 1 (run_trades hasty start)).0 ≡ none
unfolding run_trades run_trade player_accept_trade otxlinux.Prelude.Maps.assign
    otxlinux.Prelude.Maps.remove otxlinux.Prelude.Maps.find otxlinux.Trades.may_accept
    otxlinux.Trades.player_request_trade otxlinux.Trades.is_taken otxlinux.Trades.is_too_many
    otxlinux.Trades.internal_start_trade otxlinux.Trades.is_busy otxlinux.Trades.is_idle
    otxlinux.Trades.is_busy_partner otxlinux.Trades.offer otxlinux.Trades.answer_offer
    otxlinux.Trades.set_trader otxlinux.Trades.is_acknowledged otxlinux.Trades.is_player
    otxlinux.Trades.accept_partner otxlinux.Trades.accept_with otxlinux.Trades.exchange_items
    otxlinux.Trades.passes otxlinux.Trades.internal_close_trade otxlinux.Trades.is_accepted
    otxlinux.Trades.is_transferring otxlinux.Trades.partner_transfers otxlinux.Trades.release
    otxlinux.Trades.release_both otxlinux.Trades.reset_trader otxlinux.Trades.reset_partner
    otxlinux.Trades.set_trade_state otxlinux.Trades.transfer
nothing_for_ten = refl
