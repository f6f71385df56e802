-- ===== src/Trades/Reachable.antt =====
-- src/game.cpp, the trades: any sequence of commands, and what an exchange needs.
use otxlinux.Prelude.{ℕ, Bool, List, [], ◌∷◌, Option}
use otxlinux.Trades.{
  Trades, player_request_trade, internal_close_trade, Moves, player_accept_trade, check_trade_state,
  log_out,
}
use otxlinux.Trades.Soundness.{IsSound, start, start-IsSound}
use otxlinux.Trades.Starting.{player_request_trade-IsSound}
use otxlinux.Trades.Ending.{
  internal_close_trade-IsSound, check_trade_state-IsSound, log_out-IsSound,
  player_accept_trade-IsSound,
}

-- A command of a player, an item that goes away, or a logout.
pub data Command : Type 0 where
  requests : (near allowed : Bool) (holds : ℕ → ℕ → Bool) (held : Option ℕ) (p q i : ℕ) → Command
  accepts : (reachable allowed : Bool) (m : Moves) (p : ℕ) → Command
  closes : (p : ℕ) → Command
  loses : (p : ℕ) (is : List ℕ) → Command
  logs_out : (p : ℕ) → Command

unfoldable pub run_trade : Command → Trades → Trades
run_trade (requests near allowed holds held p q i) w =
    player_request_trade near allowed holds held p q i w
run_trade (accepts reachable allowed m p) w = (player_accept_trade reachable allowed m p w).1
run_trade (closes p) w = internal_close_trade p w
run_trade (loses p is) w = check_trade_state p is w
run_trade (logs_out p) w = log_out p w

unfoldable pub run_trades : List Command → Trades → Trades
run_trades [] w = w
run_trades (c ∷ cs) w = run_trades cs (run_trade c w)

run_trade-IsSound : (c : Command) (w : Trades) → IsSound w → IsSound (run_trade c w)
unfolding run_trade
run_trade-IsSound (requests near allowed holds held p q i) w s =
    player_request_trade-IsSound near allowed holds held p q i w s
run_trade-IsSound (accepts reachable allowed m p) w s =
    player_accept_trade-IsSound reachable allowed m p w s
run_trade-IsSound (closes p) w s = internal_close_trade-IsSound p w s
run_trade-IsSound (loses p is) w s = check_trade_state-IsSound p is w s
run_trade-IsSound (logs_out p) w s = log_out-IsSound p w s

run_all-IsSound : (cs : List Command) (w : Trades) → IsSound w → IsSound (run_trades cs w)
unfolding run_trades
run_all-IsSound [] w s = s
run_all-IsSound (c ∷ cs) w s = run_all-IsSound cs (run_trade c w) (run_trade-IsSound c w s)

-- After any commands from the state in which nobody trades: the partner of a player's partner is the
-- player, and another player than himself; who has no partner is idle and offers nothing, who was
-- only asked offers nothing, and no exchange is left half done; and the map has exactly the items
-- that are offered, each with the player who offers it.
pub run_trades-IsSound : (cs : List Command) → IsSound (run_trades cs start)
run_trades-IsSound cs = run_all-IsSound cs start start-IsSound
