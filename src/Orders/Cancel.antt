-- ===== src/Orders/Cancel.antt =====
-- service.go, `Cancel`: an order that can be canceled is closed, and what is left of its funds is
-- given back. The refresh of the book's projection reads and writes no row that is modelled.
pub mod Twice
use crosschainswap.Prelude.{
  ℕ, Bool, true, false, not, ◌&&◌, List, [], ◌∷◌, Option, none, some, Result, ok, err, ◌==◌, ◌!=◌,
  if◌then◌else◌,
}
use crosschainswap.Prelude.Dict.{lookup, insert}
use crosschainswap.Order.{Status, Order, EventType, OrderEvent}
use crosschainswap.Ledger.{Store, EventId, LedgerError}
use crosschainswap.Ledger.Funds.{release_order_funds}
use crosschainswap.Orders.{OrderError}
use crosschainswap.Orders.Rules.{cancelable, cancel_already_terminal}
use crosschainswap.Orders.Events.{new_order_event}

-- What a request may fail with.
pub data ServiceError : Type 0 where
  of_order : OrderError → ServiceError
  of_ledger : LedgerError → ServiceError

-- The order that comes back, and the events that are logged.
abbrev pub Canceled : Type 0
Canceled = Result ServiceError ((Order × List OrderEvent) × Store)

-- `SaveOrder` on the table of orders.
abbrev pub save_order : Order → Store → Store
save_order item s = record s { orders = insert item.id item s.orders }

abbrev pub closed_order : ℕ → Order → Order
closed_order now item = record item {
  status = Status.canceled;
  remaining_quantity = some 0;
  updated_at = now;
}

-- The part of `Cancel` behind its checks.
unfoldable pub close_order : ℕ → Order → Store → Canceled
close_order now item s =
    let item' = closed_order now item in
    elim (release_order_funds now item EventId.generated (save_order item' s)) [
      | err e ↦ err (ServiceError.of_ledger e)
      | ok (_, s') ↦ ok ((item', new_order_event now item' EventType.order_canceled 0 ∷ []), s')
    ]

-- `Cancel`, by the user `user`; 0 cancels for anyone.
unfoldable pub cancel_order : ℕ → ℕ → ℕ → Store → Canceled
unfolding close_order
cancel_order now id user s = elim (lookup id s.orders) [
  | none ↦ err (ServiceError.of_order OrderError.order_not_found)
  | some item ↦
      if user != 0 && item.user_id != user
      then err (ServiceError.of_order OrderError.user_mismatch)
      else if cancelable item.status
      then close_order now item s
      else if cancel_already_terminal item.status
      then ok ((item, []), s)
      else err (ServiceError.of_order OrderError.not_cancelable)
]
