-- ===== src/Tests/Gateway.antt =====
-- A deposit that the gateway settles before it announces it, and then announces and settles again.
use crosschainswap.Prelude.{ℕ, ◌+◌, ◌≡◌, refl, false, ok, some, List, [], ◌∷◌, if◌then◌else◌}
use crosschainswap.Ledger.{
  EventId, Store, Withdrawal, event_exists, balance_for_update, find_balance, put_balance,
  create_balance_event,
}
use crosschainswap.Ledger.Withdrawals.{
  request_withdrawal, create_withdrawal, find_withdrawal, put_withdrawal, finalize_withdrawal,
  complete_withdrawal,
}
use crosschainswap.Ledger.Totals.{total, of_asset}
use crosschainswap.Gateway.{
  GatewayStatus, Deposit, apply_deposit_callbacks, apply_withdrawal_callback,
  apply_withdrawal_callbacks,
}
use crosschainswap.Gateway.Final.{apply_withdrawal_callbacks_once}
use crosschainswap.Gateway.Once.{apply_deposit_callbacks_once}
use crosschainswap.Tests.Ledger.{locked_store, free_store, withdrawal}

abbrev deposit : Deposit
deposit = record { user = 7; asset = 3; amount = 4; pending_id = 70; settle_id = 71 }

abbrev calls : List (ℕ × GatewayStatus)
calls =
    (10, GatewayStatus.settled)
    ∷ (20, GatewayStatus.pending)
    ∷ (30, GatewayStatus.settled)
    ∷ (40, GatewayStatus.canceled)
    ∷ []

unseen : event_exists (EventId.given 70) locked_store.events ≡ false
unfolding event_exists
unseen = refl

apply_deposit_callbacks_once_example :
    total 3 (apply_deposit_callbacks calls deposit locked_store).balances
    ≡ total 3 locked_store.balances
      + (if event_exists
            (EventId.given 70)
            (apply_deposit_callbacks calls deposit locked_store).events
          then of_asset 3 3 4
          else 0)
apply_deposit_callbacks_once_example =
    apply_deposit_callbacks_once 3 deposit calls locked_store unseen

-- A withdrawal of user 7, which the gateway settles and then cancels and settles again.
asked :
    (w : Withdrawal) × (s : Store) × (request_withdrawal 10 withdrawal (EventId.given 1) free_store
      ≡ ok (w, s))
unfolding request_withdrawal create_withdrawal find_withdrawal put_withdrawal balance_for_update
    find_balance put_balance create_balance_event event_exists
asked = (_, _, refl)

paid :
    (w : Withdrawal) × (s : Store) × (apply_withdrawal_callback 20 GatewayStatus.settled 30 asked.1
      ≡ ok (some w, s))
unfolding asked apply_withdrawal_callback complete_withdrawal finalize_withdrawal find_withdrawal
    put_withdrawal balance_for_update find_balance put_balance create_balance_event event_exists
paid = (_, _, refl)

apply_withdrawal_callbacks_once_example : apply_withdrawal_callbacks calls 30 paid.1 ≡ paid.1
apply_withdrawal_callbacks_once_example =
    apply_withdrawal_callbacks_once 20 GatewayStatus.settled 30 asked.1 paid.1 paid.0 calls paid.2
