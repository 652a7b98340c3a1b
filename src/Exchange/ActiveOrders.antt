-- ===== src/Exchange/ActiveOrders.antt =====
-- exchange_repository.go: the table of orders and the one of active orders that is kept beside it,
-- and the queries on them. A blank field of a row that a query is given is no condition.
pub mod Present
use crosschainswap.Prelude.{
  ℕ, zero, suc, ◌+◌, ◌*◌, ◌^◌, Bool, true, false, not, ◌&&◌, ◌||◌, List, [], ◌∷◌, ◌++◌, Option,
  none, some, ltb, leb, ◌==◌, ◌!=◌, if◌then◌else◌,
}
use crosschainswap.Exchange.Queries.{select, insert_row, order_by, take}
use crosschainswap.Prelude.Dict.{Dict, lookup, insert}
use crosschainswap.Decimal.{val}
use crosschainswap.Order.{
  Side, Status, Order, Trade, OrderEvent, same_side, is_market, is_active, is_sell,
}
use crosschainswap.Ledger.{Store}
use crosschainswap.Exchange.{
  Tables, ExchangeError, Tx, pure, reads, from_option, modify, throw_if, ◌>>=◌, ◌>>◌,
}

-- `minimumActiveOrderQuantity`
abbrev pub minimum_active : ℕ
minimum_active = 5 * 10 ^ 9

-- `isBookableOrder`
unfoldable pub is_bookable_order : Order → Bool
is_bookable_order item =
    not (is_market item.type)
    && is_active item.status
    && leb minimum_active (val item.remaining_quantity)

-- The row with an id.
unfoldable pub find_order : ℕ → List Order → Option Order
find_order id [] = none
find_order id (o ∷ os) = if o.id == id then some o else find_order id os

unfoldable pub delete_order : ℕ → List Order → List Order
delete_order id [] = []
delete_order id (o ∷ os) = let rest = delete_order id os in if o.id == id then rest else o ∷ rest

-- `Create` with `UpdateAll` on a conflict.
unfoldable pub upsert_order : Order → List Order → List Order
upsert_order item [] = item ∷ []
upsert_order item (o ∷ os) = if o.id == item.id then item ∷ os else o ∷ upsert_order item os

-- `SyncActiveOrder`
unfoldable pub sync_active : Order → List Order → List Order
sync_active item active =
    if is_bookable_order item then upsert_order item active else delete_order item.id active

abbrev pub write_order : Order → Tables → Tables
write_order item t = record t {
  ledger = record (t.ledger) { orders = insert item.id item (t.ledger).orders };
  active = sync_active item t.active;
}

-- `SaveOrder`
unfoldable pub save_order : Order → Tx (Unit {0})
save_order item = modify (write_order item)

abbrev pub has_order : ℕ → Dict Order → Bool
has_order id orders = elim (lookup id orders) [ none ↦ false | some o ↦ true ]

-- Does a row stand under the unique index on the user and the client's order id?
unfoldable pub has_client_order : ℕ → ℕ → Dict Order → Bool
has_client_order user client [] = false
has_client_order user client ((id, o) ∷ os) =
    o.user_id == user && o.client_order_id == client || has_client_order user client os

-- `CreateOrder`
unfoldable pub create_order : Order → Tx (Unit {0})
create_order item = do
  clash ← reads (λ t.
      has_order item.id (t.ledger).orders
      || has_client_order item.user_id item.client_order_id (t.ledger).orders)
  throw_if clash ExchangeError.duplicate_row
  modify (write_order item)

-- `SaveOrder` of each order of a list.
unfoldable pub save_orders : List Order → Tx (Unit {0})
save_orders [] = pure tt
save_orders (o ∷ os) = save_order o >> save_orders os

-- `GetOrder`, and `GetOrderForUpdate`, which locks the row too.
unfoldable pub load_order : ℕ → Tx (Option Order)
load_order id = reads (λ t. lookup id (t.ledger).orders)

abbrev pub or_blank : ℕ → ℕ → Bool
or_blank wanted value = wanted == 0 || value == wanted

unfoldable pub find_by_client : ℕ → ℕ → Dict Order → Option Order
find_by_client user client [] = none
find_by_client user client ((id, o) ∷ os) =
    let rest = find_by_client user client os in
    if or_blank user o.user_id && or_blank client o.client_order_id then some o else rest

-- `FindOrderByClientID`
unfoldable pub find_order_by_client_id : ℕ → ℕ → Tx (Option Order)
find_order_by_client_id user client = reads (λ t. find_by_client user client (t.ledger).orders)

abbrev pub by_sequence : Order → Order → Bool
by_sequence a b = leb a.sequence_id b.sequence_id

-- The best price for a taker first, then the earliest order; `cheap` where the makers sell.
unfoldable pub by_price : Bool → Order → Order → Bool
by_price true a b = ltb a.price b.price || a.price == b.price && by_sequence a b
by_price false a b = ltb b.price a.price || a.price == b.price && by_sequence a b

-- `applyBookableOrderFilters`, on a row of a market that is not the order `exclude`.
unfoldable pub is_listed : ℕ → ℕ → Order → Bool
unfolding is_bookable_order
is_listed market exclude o =
    or_blank market o.market && is_bookable_order o && (exclude == 0 || o.id != exclude)

-- The conditions of `ListMatchCandidates`.
unfoldable pub is_candidate : ℕ → Side → ℕ → ℕ → Order → Bool
is_candidate market side price exclude o =
    is_listed market exclude o
    && same_side o.side side
    && (if is_sell side then leb o.price price else leb price o.price)

-- `ListMatchCandidates`
unfoldable pub list_match_candidates : ℕ → Side → ℕ → ℕ → ℕ → List Order → List Order
list_match_candidates market side price exclude limit active =
    take limit
      (order_by (by_price (is_sell side)) (select (is_candidate market side price exclude) active))

-- `ListActiveOrdersForUpdate` without a limit.
unfoldable pub list_active_orders : ℕ → ℕ → List Order → List Order
list_active_orders market exclude active =
    if market == 0 then [] else order_by by_sequence (select (is_listed market exclude) active)

abbrev pub is_pending_stop : Status → Bool
is_pending_stop Status.pending_stop = true
is_pending_stop _ = false

abbrev pub rows_of : Dict Order → List Order
rows_of [] = []
rows_of ((id, o) ∷ os) = o ∷ rows_of os

-- `ListPendingStops`
unfoldable pub list_pending_stops : ℕ → ℕ → Dict Order → List Order
list_pending_stops market limit orders = take limit (
    order_by by_sequence
      (select (λ o. or_blank market o.market && is_pending_stop o.status) (rows_of orders)))

-- `CreateTrades` and `CreateOrderEvents`; the ids that they add are new.
unfoldable pub create_trades : List Trade → Tx (Unit {0})
create_trades items = modify (λ t. record t { trades = t.trades ++ items })

unfoldable pub create_order_events : List OrderEvent → Tx (Unit {0})
create_order_events items = modify (λ t. record t { order_events = t.order_events ++ items })

-- The later of two trades, where there are two.
abbrev pub later_trade : Trade → Option Trade → Trade
later_trade x none = x
later_trade x (some y) = if ltb x.created_at y.created_at then y else x

unfoldable pub last_trade_in : ℕ → List Trade → Option Trade
last_trade_in market [] = none
last_trade_in market (x ∷ xs) =
    let rest = last_trade_in market xs in
    if or_blank market x.market then some (later_trade x rest) else rest

-- `LastTrade`, of which its callers use the price.
unfoldable pub last_price : ℕ → Tx (Option ℕ)
last_price market =
    reads (λ t. elim (last_trade_in market t.trades) [ none ↦ none | some x ↦ some x.price ])
