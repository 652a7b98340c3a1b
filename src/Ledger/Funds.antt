-- ===== src/Ledger/Funds.antt =====
-- exchange_repository.go: the funds of an order are locked when it is accepted, and what is left of
-- them is given back when it ends.
use crosschainswap.Prelude.{ℕ, ◌+◌, ◌-◌, false, ltb, leb, ◌==◌, if◌then◌else◌}
use crosschainswap.Decimal.{val, mul_units}
use crosschainswap.Order.{Order, is_buy}
use crosschainswap.Ledger.{
  BalanceEvent, BalanceEventType, EventId, Reservation, ReservationId, ReservationStatus,
  LedgerError, Action, ◌>>=◌, ◌>>◌, pure, fail_if, not_found_as, or_else, save_balance,
  create_balance_event, balance_for_update,
}
use crosschainswap.Ledger.Balances.{move_locked_to_available}
use crosschainswap.Ledger.Reservations.{
  has_no_id, get_reservation, create_reservation, release_reservation,
}

-- `orderReserveAssetAmount`: a buyer holds back quote, a seller base.
unfoldable pub reserve_asset : Order → ℕ
reserve_asset item = if is_buy item.side then item.quote_asset else item.base_asset

unfoldable pub reserve_amount : Order → ℕ
reserve_amount item =
    if is_buy item.side
    then mul_units item.price (val item.remaining_quantity)
    else val item.remaining_quantity

-- `reservationIDForOrder`
unfoldable pub reservation_id_for_order : Order → ReservationId
reservation_id_for_order item =
    if item.reservation_id == 0
    then (if item.id == 0 then ReservationId.no_id else ReservationId.of_order item.id)
    else ReservationId.named item.reservation_id

abbrev pub funds_event : ℕ → EventId → BalanceEventType → Order → ℕ → ℕ → BalanceEvent
funds_event now event_id type item asset amount = record {
  id = event_id;
  user_id = item.user_id;
  asset = asset;
  type = type;
  amount = amount;
  order_id = item.id;
  reservation_id = reservation_id_for_order item;
  trade_id = 0;
  withdrawal_id = 0;
  created_at = now;
}

abbrev pub new_reservation : ℕ → Order → ℕ → ℕ → Reservation
new_reservation now item asset amount = record {
  id = reservation_id_for_order item;
  user_id = item.user_id;
  market = item.market;
  asset = asset;
  amount = amount;
  consumed_amount = 0;
  released_amount = 0;
  remaining_amount = amount;
  status = ReservationStatus.active;
  order_id = item.id;
  created_at = now;
  updated_at = now;
}

-- The part of `ReserveOrderFunds` behind its first test.
unfoldable pub reserve_funds : ℕ → Order → EventId → ℕ → ℕ → Action (Unit {0})
reserve_funds now item event_id asset amount = do
  model ←
      not_found_as LedgerError.insufficient_balance
        (balance_for_update now item.user_id asset false)
  fail_if (ltb model.available amount) LedgerError.insufficient_balance
  save_balance (record model {
    available = model.available - amount;
    locked = model.locked + amount;
    updated_at = now;
  })
  create_reservation (new_reservation now item asset amount)
  create_balance_event (funds_event now event_id BalanceEventType.reserve item asset amount)

-- `ReserveOrderFunds`
unfoldable pub reserve_order_funds : ℕ → Order → EventId → Action (Unit {0})
reserve_order_funds now item event_id =
    if leb (reserve_amount item) 0
    then pure tt
    else reserve_funds now item event_id (reserve_asset item) (reserve_amount item)

abbrev pub at_most : ℕ → ℕ → ℕ
at_most bound amount = if ltb bound amount then bound else amount

-- The reservation's bound on a release; a reservation with nothing left sets none.
unfoldable pub clamp_to_reservation : ReservationId → ℕ → Action ℕ
clamp_to_reservation id requested =
    if has_no_id id
    then pure requested
    else or_else requested (do
      r ← get_reservation id
      pure (if ltb 0 r.remaining_amount then at_most r.remaining_amount requested else requested))

-- `clampedReleaseAmount`
unfoldable pub clamped_release_amount : ℕ → ℕ → ℕ → ReservationId → ℕ → Action ℕ
clamped_release_amount now user asset id requested = do
  amount ← clamp_to_reservation id requested
  or_else 0 (do bal ← balance_for_update now user asset false; pure (at_most bal.locked amount))

-- `ReleaseOrderFunds`
unfoldable pub release_order_funds : ℕ → Order → EventId → Action (Unit {0})
release_order_funds now item event_id =
    let id = reservation_id_for_order item in
    let asset = reserve_asset item in
    if leb (reserve_amount item) 0 then pure tt else do
      amount ← clamped_release_amount now item.user_id asset id (reserve_amount item)
      if leb amount 0 then pure tt else do
        move_locked_to_available now item.user_id asset amount
            (funds_event now event_id BalanceEventType.release item asset amount)
        release_reservation now id amount
