-- ===== src/Gateway.antt =====
-- internal/app/orders/service.go: the callbacks of the payment gateway. A deposit is announced as
-- pending and later as settled, each any number of times and in any order; the events of the ledger
-- that it leads to have ids that are made of its reference. How the user, the asset, the amount and
-- the reference are read from a request is left out, and so are the messages that are published.
pub mod Once
pub mod Final
use crosschainswap.Prelude.{
  ℕ, true, false, Bool, List, [], ◌∷◌, Option, none, some, Result, ok, err, if◌then◌else◌,
}
use crosschainswap.Ledger.{
  Balance, EventId, LedgerError, Store, Action, Withdrawal, WithdrawalStatus, BalanceEventType,
  ◌>>=◌, ◌>>◌, pure, event_exists,
}
use crosschainswap.Ledger.Balances.{mark_deposit_pending, settle_deposit}
use crosschainswap.Ledger.Withdrawals.{complete_withdrawal, cancel_withdrawal}

-- `normalizeGatewayStatus`, of which only three words matter.
pub data GatewayStatus : Type 0 where
  pending settled canceled other : GatewayStatus

-- `BalanceEventExists`, as a query.
abbrev pub exists_event : EventId → Action Bool
exists_event id s = ok (event_exists id s.events, s)

-- `markDepositPendingOnce`: was it processed?
unfoldable pub mark_deposit_pending_once : ℕ → ℕ → ℕ → ℕ → EventId → Action Bool
mark_deposit_pending_once now user asset amount event_id = do
  exists ← exists_event event_id
  if exists
      then pure false
      else do updated ← mark_deposit_pending now user asset amount event_id; pure true

-- The deposit is marked as pending, unless it was before.
abbrev pub mark_unless : Bool → ℕ → ℕ → ℕ → ℕ → EventId → Action (Unit {0})
mark_unless true now user asset amount event_id = pure tt
mark_unless false now user asset amount event_id = do
  updated ← mark_deposit_pending now user asset amount event_id
  pure tt

-- `settleGatewayDepositOnce`: was it processed?
unfoldable pub settle_gateway_deposit_once : ℕ → ℕ → ℕ → ℕ → EventId → EventId → Action Bool
settle_gateway_deposit_once now user asset amount pending_id settle_id = do
  is_settled ← exists_event settle_id
  if is_settled then pure false else do
    is_pending ← exists_event pending_id
    mark_unless is_pending now user asset amount pending_id
    updated ← settle_deposit now user asset amount settle_id
    pure true

-- A deposit, with the ids of its two events (`gatewayBalanceEventID`).
pub record Deposit : Type 0 where
  pub user : ℕ
  pub asset : ℕ
  pub amount : ℕ
  pub pending_id : ℕ
  pub settle_id : ℕ

-- `ApplyGatewayDepositCallback`, behind the checks of the request.
unfoldable pub apply_deposit_callback : ℕ → GatewayStatus → Deposit → Action Bool
apply_deposit_callback now GatewayStatus.pending d =
    mark_deposit_pending_once now d.user d.asset d.amount (EventId.given d.pending_id)
apply_deposit_callback now GatewayStatus.settled d =
    settle_gateway_deposit_once now d.user d.asset d.amount (EventId.given d.pending_id)
      (EventId.given d.settle_id)
apply_deposit_callback now GatewayStatus.canceled d = pure false
apply_deposit_callback now GatewayStatus.other d = pure false

abbrev pub after_callback : Store → Result LedgerError (Bool × Store) → Store
after_callback s (ok (processed, s')) = s'
after_callback s (err e) = s

-- Callbacks one after the other, at their times; one that fails changes nothing.
unfoldable pub apply_deposit_callbacks : List (ℕ × GatewayStatus) → Deposit → Store → Store
apply_deposit_callbacks [] d s = s
apply_deposit_callbacks ((now, status) ∷ rest) d s =
    apply_deposit_callbacks rest d (after_callback s (apply_deposit_callback now status d s))

-- `ApplyGatewayWithdrawalCallback`, behind the search for the id; `CompleteWithdrawal` and
-- `CancelWithdrawal` make the id of their event. None is returned where the status is ignored.
unfoldable pub apply_withdrawal_callback : ℕ → GatewayStatus → ℕ → Action (Option Withdrawal)
apply_withdrawal_callback now GatewayStatus.pending id = pure none
apply_withdrawal_callback now GatewayStatus.settled id = do
  updated ← complete_withdrawal now id EventId.generated
  pure (some updated)
apply_withdrawal_callback now GatewayStatus.canceled id = do
  updated ← cancel_withdrawal now id EventId.generated
  pure (some updated)
apply_withdrawal_callback now GatewayStatus.other id = pure none

abbrev pub after_withdrawal : Store → Result LedgerError (Option Withdrawal × Store) → Store
after_withdrawal s (ok (w, s')) = s'
after_withdrawal s (err e) = s

unfoldable pub apply_withdrawal_callbacks : List (ℕ × GatewayStatus) → ℕ → Store → Store
apply_withdrawal_callbacks [] id s = s
apply_withdrawal_callbacks ((now, status) ∷ rest) id s =
    apply_withdrawal_callbacks rest id
      (after_withdrawal s (apply_withdrawal_callback now status id s))
