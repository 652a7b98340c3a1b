-- ===== src/Trading/Outcomes.antt =====
-- service.go: what a match leaves in the tables. `Place`, `MatchOrder`,
-- `MatchOrderWithBookAtSequence`, `PersistBookMatchResult` and, but for the funds that are given
-- back, `activateTriggeredStops` write it in the same steps.
use crosschainswap.Prelude.{
  ℕ, List, [], ◌∷◌, ◌++◌, Option, none, some, ◌==◌, ◌!=◌, ◌&&◌, if◌then◌else◌,
}
use crosschainswap.Order.{Order, Trade}
use crosschainswap.Engine.{MatchResult}
use crosschainswap.Book.{new_market_book}
use crosschainswap.Book.Resting.{load}
use crosschainswap.Book.Snapshot.{BookState, capture_state, seal, validate_snapshot}
use crosschainswap.Ledger.{EventId}
use crosschainswap.Ledger.Funds.{release_order_funds}
use crosschainswap.Ledger.Settlement.{settle_trades}
use crosschainswap.Orders.Rules.{
  should_release_unfilled, validate_price_band, validate_stop_placement,
}
use crosschainswap.Orders.Events.{match_events}
use crosschainswap.Exchange.{
  MatchLogEntry, PriceLevelRow, ExchangeError, Tx, pure, reads, from_result, on_ledger, modify,
  throw_if, ◌>>=◌, ◌>>◌,
}
use crosschainswap.Exchange.ActiveOrders.{
  save_order, create_trades, create_order_events, list_active_orders, last_price,
}
use crosschainswap.Trading.{Env}

-- `MatchResult` of the service.
pub record Matched : Type 0 where
  pub order : Order
  pub trades : List Trade

-- The entry of a match in the log, if there is one.
unfoldable pub find_match_log : ℕ → ℕ → List MatchLogEntry → Option MatchLogEntry
find_match_log market sequence [] = none
find_match_log market sequence (e ∷ es) =
    if e.market == market && e.sequence_id == sequence
    then some e
    else find_match_log market sequence es

module _ (env : Env) where
  -- `SaveOrder` and `SettleTrades`.
  unfoldable pub save_and_settle : Order → List Trade → Tx (Unit {0})
  save_and_settle taker trades = do save_order taker; on_ledger (settle_trades env.now trades)

  unfoldable pub release_unfilled : Order → Tx (Unit {0})
  release_unfilled taker =
      if should_release_unfilled taker
      then on_ledger (release_order_funds env.now taker EventId.generated)
      else pure tt

  -- `CreateTrades` and `CreateOrderEvents`.
  unfoldable pub log_trades : Order → List Order → List Trade → Tx (Unit {0})
  log_trades taker makers trades = do
    create_trades trades
    create_order_events (match_events env.now taker makers trades)

  -- The steps in their order.
  unfoldable pub record_match : Order → List Order → List Trade → Tx (Unit {0})
  record_match taker makers trades = do
    save_and_settle taker trades
    release_unfilled taker
    log_trades taker makers trades

  -- `validatePriceBand` and `validateStopPlacement`, on the last trade of the market.
  unfoldable pub check_price_band : Order → Tx (Unit {0})
  check_price_band item = do
    last ← last_price item.market
    from_result ExchangeError.of_order (validate_price_band env.price_band_bps last item)

  unfoldable pub check_stop_placement : Order → Tx (Unit {0})
  check_stop_placement item = do
    last ← last_price item.market
    from_result ExchangeError.of_order (validate_stop_placement last item)

  abbrev pub new_match_log : ℕ → MatchResult → List PriceLevelRow → MatchLogEntry
  new_match_log sequence r levels = record {
    market = r.taker.market;
    sequence_id = sequence;
    payload_hash = env.result_hash r levels;
    payload = r;
    levels = levels;
    created_at = env.now;
  }

  -- `AppendMatchEventLog` behind its search for an entry of the same sequence.
  unfoldable pub append_match_log : MatchLogEntry → Option MatchLogEntry → Tx (Unit {0})
  append_match_log e (some old) =
      throw_if (old.payload_hash != e.payload_hash) ExchangeError.log_conflict
  append_match_log e none = modify (λ t. record t { match_log = t.match_log ++ e ∷ [] })

  -- `appendMatchEventLog`
  unfoldable pub append_match_event_log : ℕ → MatchResult → List PriceLevelRow → Tx (Unit {0})
  unfolding append_match_log
  append_match_event_log sequence r levels = if sequence == 0 then pure tt else do
    throw_if (r.taker.market == 0) ExchangeError.log_incomplete
    old ← reads (λ t. find_match_log r.taker.market sequence t.match_log)
    append_match_log (new_match_log sequence r levels) old

  -- `captureMatcherSnapshot`
  unfoldable pub capture_matcher_snapshot : ℕ → ℕ → ℕ → ℕ → Tx BookState
  capture_matcher_snapshot market base_asset quote_asset sequence = do
    active ← reads (λ t. list_active_orders market 0 t.active)
    book ←
        from_result ExchangeError.of_match
          (load (new_market_book market base_asset quote_asset) active)
    pure (capture_state env.digest book sequence env.now)

  -- `SaveMatcherSnapshot`
  unfoldable pub save_matcher_snapshot : BookState → Tx (Unit {0})
  save_matcher_snapshot s =
      let sealed = if s.checksum == 0 then seal env.digest s else s in
      (do
        from_result ExchangeError.of_snapshot (validate_snapshot env.digest sealed)
        modify (λ t. record t { snapshots = t.snapshots ++ sealed ∷ [] }))
