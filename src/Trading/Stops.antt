-- ===== src/Trading/Stops.antt =====
-- service.go, `activateTriggeredStops`: the stop orders that a price triggers are matched in turn.
use crosschainswap.Prelude.{ℕ, List, [], ◌∷◌, ◌==◌, if◌then◌else◌}
use crosschainswap.Order.{Status, Order}
use crosschainswap.Orders.Rules.{stop_triggered}
use crosschainswap.Exchange.{Tx, pure, reads, ◌>>=◌, ◌>>◌}
use crosschainswap.Exchange.ActiveOrders.{list_pending_stops}
use crosschainswap.Exchange.Levels.{LevelKey}
use crosschainswap.Trading.{Env}
use crosschainswap.Trading.Match.{Matching, match_orders}
use crosschainswap.Trading.Outcomes.{Matched, save_and_settle, log_trades, check_price_band}

-- The results, and the keys of the tracker.
pub record Activated : Type 0 where
  pub results : List Matched
  pub levels : List LevelKey

abbrev pub with_result : Matched → Activated → Activated
with_result r a = record a { results = r ∷ a.results }

module _ (env : Env) where
  abbrev pub opened : Order → Order
  opened item = record item { status = Status.opened; updated_at = env.now }

  -- One order that is triggered. Unlike the other requests, nothing is given back to it.
  unfoldable pub activate_stop : Order → List LevelKey → Tx Matching
  activate_stop item levels = do
    check_price_band env item
    m ← match_orders env (opened item) levels
    save_and_settle env m.taker m.trades
    log_trades env m.taker m.makers m.trades
    pure m

  -- The loop over the orders that wait.
  unfoldable pub activate_each : ℕ → List Order → List LevelKey → Tx Activated
  activate_each price [] levels = pure (record { results = []; levels = levels })
  activate_each price (item ∷ items) levels =
      let skip = activate_each price items levels in
      let run = activate_stop item levels >>= λ m. activate_each price items m.levels >>= λ a.
      pure (with_result (record { order = m.taker; trades = m.trades }) a) in
      if stop_triggered item price then run else skip

  -- `activateTriggeredStops`; a price of 0 is the empty one.
  unfoldable pub activate_triggered_stops : ℕ → ℕ → List LevelKey → Tx Activated
  activate_triggered_stops market price levels =
      if price == 0 then pure (record { results = []; levels = levels }) else do
        waiting ← reads (λ t. list_pending_stops market 500 (t.ledger).orders)
        activate_each price waiting levels
