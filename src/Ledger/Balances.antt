-- ===== src/Ledger/Balances.antt =====
-- exchange_repository.go: deposits, and the moves between the parts of one balance. A money amount
-- is a number of units, and an event id that the caller leaves empty is `generated`.
use crosschainswap.Prelude.{ℕ, ◌+◌, ◌-◌, true, false, ltb, ◌==◌, if◌then◌else◌}
use crosschainswap.Ledger.{
  Balance, BalanceEvent, BalanceEventType, EventId, ReservationId, LedgerError, Action, ◌>>=◌, ◌>>◌,
  pure, fail_if, save_balance, create_balance_event, balance_for_update,
}

-- `MarkDepositPending`
unfoldable pub mark_deposit_pending : ℕ → ℕ → ℕ → ℕ → EventId → Action Balance
mark_deposit_pending now user asset amount event_id = do
  model ← balance_for_update now user asset true
  let model' = record model { pending = model.pending + amount; updated_at = now }
  save_balance model'
  create_balance_event (record {
    id = event_id;
    user_id = user;
    asset = asset;
    type = BalanceEventType.deposit_pending;
    amount = amount;
    order_id = 0;
    reservation_id = ReservationId.no_id;
    trade_id = 0;
    withdrawal_id = 0;
    created_at = now;
  })
  pure model'

-- `SettleDeposit`
unfoldable pub settle_deposit : ℕ → ℕ → ℕ → ℕ → EventId → Action Balance
settle_deposit now user asset amount event_id = do
  model ← balance_for_update now user asset false
  fail_if (ltb model.pending amount) LedgerError.insufficient_balance
  let model' = record model {
    pending = model.pending - amount;
    available = model.available + amount;
    updated_at = now;
  }
  save_balance model'
  create_balance_event (record {
    id = event_id;
    user_id = user;
    asset = asset;
    type = BalanceEventType.deposit_settled;
    amount = amount;
    order_id = 0;
    reservation_id = ReservationId.no_id;
    trade_id = 0;
    withdrawal_id = 0;
    created_at = now;
  })
  pure model'

-- `debitLocked`; the event takes the asset and the amount of the call.
unfoldable pub debit_locked : ℕ → ℕ → ℕ → ℕ → BalanceEvent → Action (Unit {0})
debit_locked now user asset amount event = do
  model ← balance_for_update now user asset false
  fail_if (ltb model.locked amount) LedgerError.insufficient_balance
  save_balance (record model { locked = model.locked - amount; updated_at = now })
  create_balance_event (record event { asset = asset; amount = amount })

-- `addAvailableBalanceWithReservation`; `addAvailableBalance` is the call with no reservation.
unfoldable pub add_available_balance :
    ℕ → ℕ → ℕ → ℕ → BalanceEventType → ℕ → ReservationId → ℕ → ℕ → Action (Unit {0})
add_available_balance now user asset amount type order_id reservation_id trade_id created_at = do
  model ← balance_for_update now user asset true
  save_balance (record model { available = model.available + amount; updated_at = now })
  create_balance_event (record {
    id = EventId.generated;
    user_id = user;
    asset = asset;
    type = type;
    amount = amount;
    order_id = order_id;
    reservation_id = reservation_id;
    trade_id = trade_id;
    withdrawal_id = 0;
    created_at = if created_at == 0 then now else created_at;
  })

-- `moveLockedToAvailable`
unfoldable pub move_locked_to_available : ℕ → ℕ → ℕ → ℕ → BalanceEvent → Action (Unit {0})
move_locked_to_available now user asset amount event = do
  debit_locked now user asset amount
      (record event { user_id = user; type = BalanceEventType.release; withdrawal_id = 0 })
  add_available_balance now user asset amount BalanceEventType.release event.order_id
      event.reservation_id event.trade_id event.created_at
