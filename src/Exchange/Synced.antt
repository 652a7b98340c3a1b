-- ===== src/Exchange/Synced.antt =====
-- The table of active orders holds exactly the orders that can be traded with.
use crosschainswap.Prelude.{
  ℕ, ◌≡◌, refl, List, [], ◌∷◌, Option, none, some, arith, ◌==◌, if◌then◌else◌,
}
use crosschainswap.Prelude.Dict.{Dict, lookup, insert, lookup-insert}
use crosschainswap.Order.{Order}
use crosschainswap.Exchange.ActiveOrders.{
  is_bookable_order, find_order, delete_order, upsert_order, sync_active,
}

abbrev pub if_bookable : Option Order → Option Order
if_bookable none = none
if_bookable (some o) = if is_bookable_order o then some o else none

-- The active order of each id is the order of that id, where it can be traded with.
abbrev pub IsSynced : List Order → Dict Order → Type 0
IsSynced active orders = (id : ℕ) → find_order id active ≡ if_bookable (lookup id orders)

find_order-delete :
    (i j : ℕ) (os : List Order)
    → find_order j (delete_order i os) ≡ (if i == j then none else find_order j os)
unfolding find_order delete_order
find_order-delete i j [] = ground arith
find_order-delete i j (o ∷ os) = ground (arith, find_order-delete i j os)

find_order-upsert :
    (item : Order) (j : ℕ) (os : List Order)
    → find_order j (upsert_order item os) ≡ (if item.id == j then some item else find_order j os)
unfolding find_order upsert_order
find_order-upsert item j [] = refl
find_order-upsert item j (o ∷ os) = ground (arith, find_order-upsert item j os)

-- Saving an order keeps the two tables in step.
pub sync_active-IsSynced :
    (item : Order) (active : List Order) (orders : Dict Order)
    → IsSynced active orders
    → IsSynced (sync_active item active) (insert item.id item orders)
unfolding sync_active
sync_active-IsSynced item active orders h id = ground (
  arith,
  lookup-insert item.id id item orders,
  find_order-delete item.id id active,
  find_order-upsert item id active,
  h id,
)
