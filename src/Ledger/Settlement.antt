-- ===== src/Ledger/Settlement.antt =====
-- exchange_repository.go: a trade moves the buyer's locked quote to the seller and the seller's
-- locked base to the buyer, and gives the buyer back what its price limit had held too much.
use crosschainswap.Prelude.{ℕ, List, [], ◌∷◌, leb, if◌then◌else◌}
use crosschainswap.Prelude.Dict.{lookup}
use crosschainswap.Decimal.{val}
use crosschainswap.Order.{Order, Trade}
use crosschainswap.Ledger.{
  of_result, BalanceEvent, BalanceEventType, EventId, ReservationId, LedgerError, Action, ◌>>=◌,
  ◌>>◌, pure, or_fail,
}
use crosschainswap.Ledger.Plan.{SettlementPlan, settlement_for_trade}
use crosschainswap.Ledger.Balances.{debit_locked, add_available_balance}
use crosschainswap.Ledger.Reservations.{consume_reservation, release_reservation}
use crosschainswap.Ledger.Funds.{reservation_id_for_order}

abbrev pub debit_event : Trade → Order → ℕ → ℕ → BalanceEvent
debit_event item party asset amount = record {
  id = EventId.generated;
  user_id = party.user_id;
  asset = asset;
  type = BalanceEventType.debit_locked;
  amount = amount;
  order_id = party.id;
  reservation_id = reservation_id_for_order party;
  trade_id = item.id;
  withdrawal_id = 0;
  created_at = item.created_at;
}

-- What the buyer's limit had locked beyond the price of the trade.
unfoldable pub release_excess : ℕ → Trade → Order → ℕ → Action (Unit {0})
release_excess now item buyer excess = if leb excess 0 then pure tt else do
  add_available_balance now buyer.user_id item.quote_asset excess BalanceEventType.release buyer.id
      (reservation_id_for_order buyer) item.id item.created_at
  release_reservation now (reservation_id_for_order buyer) excess

-- The moves of `settleTrade` on the quote asset's side of the buyer, and the buyer's base.
unfoldable pub settle_buyer : ℕ → Trade → SettlementPlan → Action (Unit {0})
settle_buyer now item plan = do
  debit_locked now (plan.buyer).user_id item.quote_asset plan.buyer_locked_quote
      (debit_event item plan.buyer item.quote_asset plan.buyer_locked_quote)
  consume_reservation now (reservation_id_for_order plan.buyer) (val item.quote_quantity)
  release_excess now item plan.buyer plan.buyer_quote_release
  add_available_balance now (plan.buyer).user_id item.base_asset (val item.quantity)
      BalanceEventType.settlement_receive (plan.buyer).id ReservationId.no_id item.id
      item.created_at

-- The moves on the seller's side.
unfoldable pub settle_seller : ℕ → Trade → SettlementPlan → Action (Unit {0})
settle_seller now item plan = do
  debit_locked now (plan.seller).user_id item.base_asset (val item.quantity)
      (debit_event item plan.seller item.base_asset (val item.quantity))
  consume_reservation now (reservation_id_for_order plan.seller) (val item.quantity)
  add_available_balance now (plan.seller).user_id item.quote_asset (val item.quote_quantity)
      BalanceEventType.settlement_receive (plan.seller).id ReservationId.no_id item.id
      item.created_at

-- `settleTrade`
unfoldable pub settle_trade : ℕ → Trade → Order → Order → Action (Unit {0})
settle_trade now item maker taker = do
  plan ← of_result (settlement_for_trade item maker taker)
  settle_buyer now item plan
  settle_seller now item plan

-- `GetOrder`
unfoldable pub get_order : ℕ → Action Order
get_order id s = or_fail (lookup id s.orders) LedgerError.record_not_found s

-- `SettleTrades`
unfoldable pub settle_trades : ℕ → List Trade → Action (Unit {0})
settle_trades now [] = pure tt
settle_trades now (item ∷ items) =
    let rest = settle_trades now items in
    (do
      maker ← get_order item.maker_order_id
      taker ← get_order item.taker_order_id
      settle_trade now item maker taker
      rest)
