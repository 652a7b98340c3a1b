-- ===== src/Tests/Ledger.antt =====
-- The ledger with the buyer and the seller of `Samples`: user 7 has locked 15 of asset 3, and user 8
-- has locked 2 of asset 2.
use crosschainswap.Prelude.{ℕ, ◌+◌, ◌*◌, ◌/◌, ◌≤◌, ◌≡◌, refl, some, List, [], ◌∷◌, ok}
use crosschainswap.Prelude.Dict.{lookup}
use crosschainswap.Decimal.{one, mul_units}
use crosschainswap.Order.{Order, Trade}
use crosschainswap.Ledger.{
  Balance, Reservation, ReservationId, ReservationStatus, Withdrawal, WithdrawalStatus, EventId,
  Store, find_balance, put_balance, event_exists, create_balance_event, balance_for_update,
}
use crosschainswap.Ledger.Balances.{
  mark_deposit_pending, settle_deposit, debit_locked, add_available_balance,
  move_locked_to_available,
}
use crosschainswap.Ledger.Withdrawals.{
  find_withdrawal, put_withdrawal, create_withdrawal, request_withdrawal, finalize_withdrawal,
  complete_withdrawal, cancel_withdrawal,
}
use crosschainswap.Ledger.Reservations.{
  find_reservation, put_reservation, get_reservation, reservation_clashes, create_reservation,
  reservation_status, take_from, apply_reservation_delta,
}
use crosschainswap.Ledger.Funds.{
  reserve_asset, reserve_amount, reservation_id_for_order, reserve_funds, reserve_order_funds,
  clamp_to_reservation, clamped_release_amount, release_order_funds,
}
use crosschainswap.Ledger.Plan.{SettlementPlan, plan_between, settlement_for_trade}
use crosschainswap.Ledger.Parts.{settlement_for_trade_parts}
use crosschainswap.Ledger.Settlement.{
  release_excess, settle_buyer, settle_seller, settle_trade, get_order, settle_trades,
}
use crosschainswap.Ledger.Totals.{total, of_asset}
use crosschainswap.Ledger.Balanced.{AllBalanced}
use crosschainswap.Ledger.Methods.{
  settle_trades_conserves, settle_trades_accounts, HasStatus, complete_withdrawal_takes,
  cancel_withdrawal_returns,
}
use crosschainswap.Tests.Samples.{buyer, seller, trade_with}

abbrev balance : ℕ → ℕ → ℕ → ℕ → Balance
balance user asset available locked = record {
  user_id = user;
  asset = asset;
  available = available * one;
  locked = locked * one;
  pending = 0;
  updated_at = 0;
}

abbrev reserved : ℕ → ℕ → ℕ → ℕ → Reservation
reserved order user asset amount = record {
  id = ReservationId.named order;
  user_id = user;
  market = 1;
  asset = asset;
  amount = amount * one;
  consumed_amount = 0;
  released_amount = 0;
  remaining_amount = amount * one;
  status = ReservationStatus.active;
  order_id = order;
  created_at = 0;
  updated_at = 0;
}

abbrev pub locked_store : Store
locked_store = record {
  balances = balance 7 3 5 15 ∷ balance 8 2 1 2 ∷ [];
  reservations = reserved 10 7 3 15 ∷ reserved 11 8 2 2 ∷ [];
  withdrawals = [];
  events = [];
  orders = (10, buyer) ∷ (11, seller) ∷ [];
}

pub locked_store-AllBalanced : AllBalanced locked_store
unfolding reservation_status
locked_store-AllBalanced = (
  record { accounted = refl; status_eq = refl },
  (record { accounted = refl; status_eq = refl }, tt),
)

abbrev sold : List Trade
sold = trade_with 0 seller 2 ∷ []

settle_sold : (s : Store) × (settle_trades 60 sold locked_store ≡ ok (tt, s))
unfolding settle_trades settle_trade settle_buyer settle_seller release_excess get_order lookup
    settlement_for_trade plan_between mul_units debit_locked add_available_balance
    balance_for_update find_balance put_balance create_balance_event event_exists
    apply_reservation_delta find_reservation put_reservation take_from reservation_status
    reservation_id_for_order
settle_sold = (_, refl)

settle_trades_conserves_example : total 3 settle_sold.0.balances ≡ total 3 locked_store.balances
settle_trades_conserves_example =
    settle_trades_conserves 60 sold 3 locked_store settle_sold.0 settle_sold.1

settle_trades_accounts_example : AllBalanced settle_sold.0
settle_trades_accounts_example =
    settle_trades_accounts 60 sold locked_store settle_sold.0 locked_store-AllBalanced settle_sold.1

plan_sold :
    (p : SettlementPlan) × (settlement_for_trade (trade_with 0 seller 2) seller buyer ≡ ok p)
unfolding settlement_for_trade plan_between mul_units
plan_sold = (_, refl)

-- Two units bought at half a unit of quote each, in two trades of one unit: each of the trades locks
-- one unit, and one unit was held back for both.
abbrev half_price_buyer : Order
half_price_buyer = record buyer { price = one / 2; quantity = some 2; remaining_quantity = some 2 }

abbrev unit_trade : Trade
unit_trade = record (trade_with 0 seller 2) { quantity = some 1; quote_quantity = some 1 }

plan_unit :
    (p : SettlementPlan) × (settlement_for_trade unit_trade seller half_price_buyer ≡ ok p)
    × ((p.buyer).price ≡ half_price_buyer.price)
unfolding settlement_for_trade plan_between mul_units
plan_unit = (_, refl, refl)

settlement_for_trade_parts_example :
    plan_unit.0.buyer_locked_quote + plan_unit.0.buyer_locked_quote
    ≤ reserve_amount half_price_buyer + 1
settlement_for_trade_parts_example =
    settlement_for_trade_parts half_price_buyer unit_trade unit_trade seller seller half_price_buyer
      half_price_buyer plan_unit.0 plan_unit.0 refl refl plan_unit.1 plan_unit.1 plan_unit.2
      plan_unit.2

-- A store with nothing locked.
abbrev pub free_store : Store
free_store = record {
  balances = balance 7 3 20 0 ∷ [];
  reservations = [];
  withdrawals = [];
  events = [];
  orders = [];
}

pending_deposit :
    (p : Balance × Store) × (mark_deposit_pending 10 7 3 (4 * one) (EventId.given 1) free_store
      ≡ ok p)
unfolding mark_deposit_pending balance_for_update find_balance put_balance create_balance_event
    event_exists
pending_deposit = (_, refl)

settled_deposit :
    (p : Balance × Store) × (settle_deposit 20 7 3 (4 * one) (EventId.given 2) pending_deposit.0.1
      ≡ ok p)
unfolding pending_deposit settle_deposit balance_for_update find_balance put_balance
    create_balance_event event_exists
settled_deposit = (_, refl)

abbrev pub withdrawal : Withdrawal
withdrawal = record {
  id = 30;
  user_id = 7;
  asset = 3;
  amount = 6 * one;
  chain_key = 1;
  address = 1;
  status = WithdrawalStatus.requested;
  created_at = 0;
  updated_at = 0;
}

asked :
    (p : Withdrawal × Store) × (request_withdrawal 10 withdrawal (EventId.given 1) free_store
      ≡ ok p)
unfolding request_withdrawal create_withdrawal find_withdrawal put_withdrawal balance_for_update
    find_balance put_balance create_balance_event event_exists
asked = (_, refl)

paid : (p : Withdrawal × Store) × (complete_withdrawal 20 30 (EventId.given 2) asked.0.1 ≡ ok p)
unfolding asked complete_withdrawal finalize_withdrawal find_withdrawal put_withdrawal
    balance_for_update find_balance put_balance create_balance_event event_exists
paid = (_, refl)

complete_withdrawal_takes_example :
    (total 3 paid.0.1.balances + of_asset 3 3 (6 * one) ≡ total 3 free_store.balances)
    × HasStatus 30 WithdrawalStatus.completed paid.0.1
complete_withdrawal_takes_example =
    complete_withdrawal_takes 10 20 withdrawal (EventId.given 1) (EventId.given 2) 3 free_store
      asked.0.1 paid.0.1 asked.0.0 paid.0.0 asked.1 paid.1

given_up : (p : Withdrawal × Store) × (cancel_withdrawal 20 30 (EventId.given 2) asked.0.1 ≡ ok p)
unfolding asked cancel_withdrawal finalize_withdrawal find_withdrawal put_withdrawal
    balance_for_update find_balance put_balance create_balance_event event_exists
given_up = (_, refl)

cancel_withdrawal_returns_example :
    (total 3 given_up.0.1.balances ≡ total 3 free_store.balances)
    × HasStatus 30 WithdrawalStatus.canceled given_up.0.1
cancel_withdrawal_returns_example =
    cancel_withdrawal_returns 10 20 withdrawal (EventId.given 1) (EventId.given 2) 3 free_store
      asked.0.1 given_up.0.1 asked.0.0 given_up.0.0 asked.1 given_up.1

backed : (s : Store) × (reserve_order_funds 10 buyer EventId.generated free_store ≡ ok (tt, s))
unfolding reserve_order_funds reserve_funds reserve_amount reserve_asset mul_units
    balance_for_update find_balance put_balance create_reservation reservation_clashes
    reservation_id_for_order create_balance_event event_exists
backed = (_, refl)

released : (s : Store) × (release_order_funds 20 buyer EventId.generated backed.0 ≡ ok (tt, s))
unfolding backed release_order_funds clamped_release_amount clamp_to_reservation get_reservation
    find_reservation put_reservation take_from reservation_status apply_reservation_delta
    move_locked_to_available debit_locked add_available_balance reserve_amount reserve_asset
    mul_units balance_for_update find_balance put_balance reservation_id_for_order
    create_balance_event event_exists
released = (_, refl)
