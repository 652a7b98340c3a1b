-- ===== src/Trading/Requests.antt =====
-- service.go: the requests that match an order, cancel one or trigger stops. Each is one
-- transaction. What is published afterwards is part of the response.
use crosschainswap.Prelude.{
  ℕ, Bool, true, false, ◌&&◌, List, [], ◌∷◌, Option, none, some, ◌!=◌, if◌then◌else◌,
}
use crosschainswap.Prelude.Dict.{lookup}
use crosschainswap.Order.{Status, Order, Trade, EventType}
use crosschainswap.Engine.{MatchResult}
use crosschainswap.Ledger.{EventId}
use crosschainswap.Ledger.Funds.{release_order_funds}
use crosschainswap.Orders.{NumberText, OrderError}
use crosschainswap.Orders.Build.{parse_positive_decimal}
use crosschainswap.Orders.Rules.{cancelable, cancel_already_terminal, last_trade_price}
use crosschainswap.Orders.Events.{new_order_event}
use crosschainswap.Orders.Cancel.{closed_order}
use crosschainswap.Exchange.{
  PriceLevelRow, ExchangeError, Tx, pure, from_option, from_result, on_ledger, throw, throw_if,
  ◌>>=◌, ◌>>◌,
}
use crosschainswap.Exchange.ActiveOrders.{save_order, save_orders, load_order, create_order_events}
use crosschainswap.Exchange.Levels.{LevelKey, touch, touch_all, refresh_book_projection}
use crosschainswap.Trading.{Env}
use crosschainswap.Trading.Match.{Matching, match_orders, match_with_book}
use crosschainswap.Trading.Outcomes.{
  Matched, record_match, append_match_event_log, capture_matcher_snapshot, save_matcher_snapshot,
}
use crosschainswap.Trading.Stops.{Activated, activate_triggered_stops}

-- What a request returns, and what is published of it: the order with its trades, the stops that it
-- triggered, and the levels that changed.
pub record Response : Type 0 where
  pub matched : Matched
  pub activated : List Matched
  pub deltas : List PriceLevelRow

abbrev pub unchanged : Order → Response
unchanged item = record {
  matched = record { order = item; trades = [] };
  activated = [];
  deltas = [];
}

-- The order that is matched, where its status allows it.
abbrev pub ready_with : ℕ → Order → Status → Option Order
ready_with now item Status.pending_match =
    some (record item { status = Status.opened; updated_at = now })
ready_with now item Status.opened = some item
ready_with now item Status.partially_filled = some item
ready_with now item _ = none

abbrev pub ready_to_match : ℕ → Order → Option Order
ready_to_match now item = ready_with now item item.status

abbrev pub not_found : ExchangeError
not_found = ExchangeError.of_order OrderError.order_not_found

unfoldable pub require_order : ℕ → Tx Order
require_order id = do found ← load_order id; from_option not_found found

module _ (env : Env) where
  abbrev pub response_of : Order → List Trade → Activated → List PriceLevelRow → Response
  response_of taker trades a deltas = record {
    matched = record { order = taker; trades = trades };
    activated = a.results;
    deltas = deltas;
  }

  -- The end of a request that matched: the stops at the price of the last trade, and the levels.
  unfoldable pub finish_match : Order → List Trade → List LevelKey → Tx Response
  finish_match taker trades levels = do
    a ← activate_triggered_stops env taker.market (last_trade_price trades) levels
    deltas ← refresh_book_projection env.now taker.market a.levels
    pure (response_of taker trades a deltas)

  unfoldable pub match_ready : Order → Option Order → Tx Response
  match_ready item none = pure (unchanged item)
  match_ready item (some taker) = do
    m ← match_orders env taker []
    record_match env m.taker m.makers m.trades
    finish_match m.taker m.trades m.levels

  -- `MatchOrder`
  unfoldable pub match_order : ℕ → Tx Response
  match_order id = do item ← require_order id; match_ready item (ready_to_match env.now item)

  -- The snapshot that is saved after a match, if one is wanted.
  unfoldable pub snapshot_after : Bool → Order → ℕ → Tx (Unit {0})
  snapshot_after false taker sequence = pure tt
  snapshot_after true taker sequence = do
    s ← capture_matcher_snapshot env taker.market taker.base_asset taker.quote_asset sequence
    save_matcher_snapshot env s

  -- The part that `MatchOrderWithBookAtSequence` and `PersistBookMatchResult` share, behind the
  -- makers: `levels` are the keys that are touched.
  unfoldable pub persist_result : MatchResult → List LevelKey → ℕ → Bool → Tx Response
  persist_result r levels sequence save = do
    record_match env r.taker r.makers r.trades
    response ← finish_match r.taker r.trades levels
    append_match_event_log env sequence r response.deltas
    snapshot_after save r.taker sequence
    pure response

  abbrev pub result_of : Matching → MatchResult
  result_of m = record { taker = m.taker; makers = m.makers; trades = m.trades }

  unfoldable pub book_ready : Order → ℕ → Bool → Option Order → Tx Response
  book_ready item sequence save none = pure (unchanged item)
  book_ready item sequence save (some taker) = do
    m ← match_with_book env taker []
    save_orders m.makers
    persist_result (result_of m) m.levels sequence save

  -- `MatchOrderWithBookAtSequence`
  unfoldable pub match_order_with_book : ℕ → ℕ → Bool → Tx Response
  match_order_with_book id sequence save = do
    item ← require_order id
    book_ready item sequence save (ready_to_match env.now item)

  -- The loop of `PersistBookMatchResult` over the makers.
  unfoldable pub save_makers : List Order → Tx (Unit {0})
  save_makers [] = pure tt
  save_makers (m ∷ ms) = do require_order m.id; save_order m; save_makers ms

  unfoldable pub persist_ready : Order → MatchResult → ℕ → Bool → Option Order → Tx Response
  persist_ready current r sequence save none = pure (unchanged current)
  persist_ready current r sequence save (some o) = do
    save_makers r.makers
    persist_result r (touch_all r.makers (touch r.taker [])) sequence save

  -- `PersistBookMatchResult`, of a match that was made in a book in memory.
  unfoldable pub persist_book_match_result : MatchResult → ℕ → Bool → Tx Response
  persist_book_match_result r sequence save = do
    current ← require_order r.taker.id
    persist_ready current r sequence save (ready_to_match env.now current)

  -- `TriggerStops`
  unfoldable pub trigger_stops : ℕ → NumberText → Tx Activated
  trigger_stops market text = do
    price ← from_result ExchangeError.of_order (parse_positive_decimal text)
    known ←
        from_option (ExchangeError.of_order OrderError.unknown_market) (lookup market env.markets)
    a ← activate_triggered_stops env market price []
    deltas ← refresh_book_projection env.now market a.levels
    pure a

  -- The part of `Cancel` behind its checks.
  unfoldable pub cancel_open : Order → Tx Order
  cancel_open item = do
    save_order (closed_order env.now item)
    on_ledger (release_order_funds env.now item EventId.generated)
    create_order_events
        (new_order_event env.now (closed_order env.now item) EventType.order_canceled 0 ∷ [])
    refresh_book_projection env.now item.market (touch (closed_order env.now item) [])
    pure (closed_order env.now item)

  -- The test of the status.
  unfoldable pub cancel_found : Order → Tx Order
  cancel_found item =
      if cancelable item.status
      then cancel_open item
      else if cancel_already_terminal item.status
      then pure item
      else throw (ExchangeError.of_order OrderError.not_cancelable)

  -- `Cancel`, by the user `user`; 0 cancels for anyone.
  unfoldable pub cancel_request : ℕ → ℕ → Tx Order
  cancel_request id user = do
    item ← require_order id
    throw_if (user != 0 && item.user_id != user) (ExchangeError.of_order OrderError.user_mismatch)
    cancel_found item
