-- ===== src/Ledger/Withdrawals.antt =====
-- exchange_repository.go: withdrawals. What is asked for waits in `pending` until it is completed
-- or canceled.
use crosschainswap.Prelude.{
  ℕ, ◌+◌, ◌-◌, Bool, true, false, List, [], ◌∷◌, ◌==◌, some, none, Option, ok, err, ltb,
  if◌then◌else◌,
}
use crosschainswap.Ledger.{
  BalanceEvent, BalanceEventType, EventId, ReservationId, LedgerError, Withdrawal, WithdrawalStatus,
  Action, ◌>>=◌, ◌>>◌, pure, fail_if, or_fail, not_found_as, save_balance, create_balance_event,
  balance_for_update,
}

-- `First(&model, "id = ?", id)`
unfoldable pub find_withdrawal : ℕ → List Withdrawal → Option Withdrawal
find_withdrawal id [] = none
find_withdrawal id (w ∷ ws) = if w.id == id then some w else find_withdrawal id ws

-- `Save` of a row: it replaces the row of its id, or is added.
unfoldable pub put_withdrawal : Withdrawal → List Withdrawal → List Withdrawal
put_withdrawal w [] = w ∷ []
put_withdrawal w (v ∷ vs) = if v.id == w.id then w ∷ vs else v ∷ put_withdrawal w vs

-- `Create` of a withdrawal, whose id is the primary key.
unfoldable pub create_withdrawal : Withdrawal → Action (Unit {0})
create_withdrawal w s = elim (find_withdrawal w.id s.withdrawals) [
  | some _ ↦ err LedgerError.duplicate_key
  | none ↦ ok (tt, record s { withdrawals = put_withdrawal w s.withdrawals })
]

abbrev pub save_withdrawal : Withdrawal → Action (Unit {0})
save_withdrawal w s = ok (tt, record s { withdrawals = put_withdrawal w s.withdrawals })

abbrev pub withdrawal_event : ℕ → EventId → BalanceEventType → Withdrawal → BalanceEvent
withdrawal_event now event_id type w = record {
  id = event_id;
  user_id = w.user_id;
  asset = w.asset;
  type = type;
  amount = w.amount;
  order_id = 0;
  reservation_id = ReservationId.no_id;
  trade_id = 0;
  withdrawal_id = w.id;
  created_at = now;
}

-- `RequestWithdrawal`
unfoldable pub request_withdrawal : ℕ → Withdrawal → EventId → Action Withdrawal
request_withdrawal now item event_id = do
  model ←
      not_found_as LedgerError.insufficient_balance
        (balance_for_update now item.user_id item.asset false)
  fail_if (ltb model.available item.amount) LedgerError.insufficient_balance
  let withdrawal = record item {
    status = WithdrawalStatus.requested;
    created_at = now;
    updated_at = now;
  }
  save_balance (record model {
    available = model.available - item.amount;
    pending = model.pending + item.amount;
    updated_at = now;
  })
  create_withdrawal withdrawal
  create_balance_event (withdrawal_event now event_id BalanceEventType.withdrawal_requested item)
  pure withdrawal

abbrev pub is_requested : WithdrawalStatus → Bool
is_requested WithdrawalStatus.requested = true
is_requested _ = false

-- What a canceled withdrawal gives back.
abbrev pub refunded : WithdrawalStatus → ℕ → ℕ
refunded WithdrawalStatus.canceled amount = amount
refunded _ amount = 0

-- The private `finalizeWithdrawal`
unfoldable pub finalize_withdrawal :
    ℕ → ℕ → WithdrawalStatus → BalanceEventType → EventId → Action Withdrawal
finalize_withdrawal now id next_status event_type event_id = do
  model ← λ s. or_fail (find_withdrawal id s.withdrawals) LedgerError.record_not_found s
  fail_if (if is_requested model.status then false else true) LedgerError.not_requested
  bal ← balance_for_update now model.user_id model.asset false
  fail_if (ltb bal.pending model.amount) LedgerError.insufficient_balance
  save_balance (record bal {
    pending = bal.pending - model.amount;
    available = bal.available + refunded next_status model.amount;
    updated_at = now;
  })
  let model' = record model { status = next_status; updated_at = now }
  save_withdrawal model'
  create_balance_event (withdrawal_event now event_id event_type model)
  pure model'

-- `CompleteWithdrawal`
unfoldable pub complete_withdrawal : ℕ → ℕ → EventId → Action Withdrawal
unfolding finalize_withdrawal
complete_withdrawal now id =
    finalize_withdrawal now id WithdrawalStatus.completed BalanceEventType.withdrawal_completed

-- `CancelWithdrawal`
unfoldable pub cancel_withdrawal : ℕ → ℕ → EventId → Action Withdrawal
unfolding finalize_withdrawal
cancel_withdrawal now id =
    finalize_withdrawal now id WithdrawalStatus.canceled BalanceEventType.withdrawal_canceled
