-- ===== src/Exchange/ActiveOrders/Present.antt =====
-- The rows that a query lists are rows of the table, and saving a filled order removes its row.
use crosschainswap.Prelude.{
  ℕ, ◌≤◌, ◌<◌, ◌≡◌, refl, ap, List, [], ◌∷◌, ok, arith, All, All-map, length,
}
use crosschainswap.Order.{Side, Status, Order}
use crosschainswap.Exchange.{Tables, modify, pure, ◌>>=◌}
use crosschainswap.Exchange.Queries.{All-select, All-order_by, All-take}
use crosschainswap.Exchange.ActiveOrders.{
  is_bookable_order, delete_order, sync_active, write_order, save_order, save_orders,
  list_match_candidates,
}

-- The table has a row of this id.
abbrev pub Present : List Order → Order → Type 0
Present active o = length (delete_order o.id active) < length active

pub length-delete_order : (id : ℕ) (os : List Order) → length (delete_order id os) ≤ length os
unfolding delete_order
length-delete_order id [] = omega arith
length-delete_order id (o ∷ os) = ground (arith, length-delete_order id os)

Present-cons :
    (x : Order) (active : List Order) (o : Order) → Present active o → Present (x ∷ active) o
unfolding delete_order
Present-cons x active o h = ground arith

Present-All : (active : List Order) → All (Present active) active
unfolding delete_order
Present-All [] = tt
Present-All (x ∷ xs) = (
  ground (arith, length-delete_order x.id xs),
  All-map _ _ (Present-cons x xs) xs (Present-All xs),
)

-- Candidates are active orders.
pub list_match_candidates-Present :
    (market : ℕ) (side : Side) (price exclude limit : ℕ) (active : List Order)
    → All (Present active) (list_match_candidates market side price exclude limit active)
unfolding list_match_candidates
list_match_candidates-Present market side price exclude limit active =
    let P = Present active in
    All-take P limit _ (All-order_by P _ _ (All-select P _ active (Present-All active)))

abbrev pub write_orders : List Order → Tables → Tables
write_orders [] t = t
write_orders (o ∷ os) t = write_orders os (write_order o t)

pub save_orders-eq : (os : List Order) (t : Tables) → save_orders os t ≡ ok (tt, write_orders os t)
unfolding save_orders save_order modify pure ◌>>=◌
save_orders-eq [] t = refl
save_orders-eq (o ∷ os) t = save_orders-eq os (write_order o t)

abbrev pub IsFilled : Order → Type 0
IsFilled m = m.status ≡ Status.filled

pub filled-sync :
    (o : Order) (active : List Order) → IsFilled o → sync_active o active ≡ delete_order o.id active
unfolding sync_active is_bookable_order
filled-sync o active h = ground arith

pub length-write_orders :
    (os : List Order) (t : Tables)
    → All IsFilled os
    → length (write_orders os t).active ≤ length t.active
length-write_orders [] t h = omega arith
length-write_orders (o ∷ os) t h = omega (
  arith,
  length-write_orders os (write_order o t) h.1,
  ap length (filled-sync o t.active h.0),
  length-delete_order o.id t.active,
)
