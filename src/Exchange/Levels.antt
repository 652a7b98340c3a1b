-- ===== src/Exchange/Levels.antt =====
-- exchange_repository.go and `levelTracker` of service.go: the table of price levels, which shows
-- what rests in the table of active orders at each price.
pub mod Shown
use crosschainswap.Prelude.{
  ℕ, ◌+◌, Bool, false, not, ◌&&◌, ◌||◌, List, [], ◌∷◌, Option, none, some, leb, ltb, ◌==◌, ◌!=◌,
  if◌then◌else◌,
}
use crosschainswap.Decimal.{val}
use crosschainswap.Order.{Side, Order, same_side}
use crosschainswap.Exchange.{PriceLevelRow, Tx, reads, modify, ◌>>◌}
use crosschainswap.Exchange.ActiveOrders.{minimum_active, is_bookable_order}

-- `PriceLevelKey`
pub record LevelKey : Type 0 where
  pub market : ℕ
  pub side : Side
  pub price : ℕ

abbrev pub key_of : Order → LevelKey
key_of item = record { market = item.market; side = item.side; price = item.price }

abbrev pub same_key : LevelKey → LevelKey → Bool
same_key a b = a.market == b.market && same_side a.side b.side && a.price == b.price

abbrev pub is_blank_side : Side → Bool
is_blank_side (Side.other n) = n == 0
is_blank_side _ = false

abbrev pub is_blank_key : LevelKey → Bool
is_blank_key k = k.market == 0 || is_blank_side k.side || k.price == 0

unfoldable pub has_key : LevelKey → List LevelKey → Bool
has_key k [] = false
has_key k (j ∷ js) = same_key j k || has_key k js

-- `touch`, on the keys of the tracker, of which none occurs twice.
unfoldable pub touch : Order → List LevelKey → List LevelKey
touch item keys =
    if is_blank_key (key_of item) || has_key (key_of item) keys then keys else key_of item ∷ keys

abbrev pub touch_all : List Order → List LevelKey → List LevelKey
touch_all [] keys = keys
touch_all (o ∷ os) keys = touch_all os (touch o keys)

abbrev pub at_key : LevelKey → Order → Bool
at_key k o = same_key (key_of o) k && leb minimum_active (val o.remaining_quantity)

abbrev pub row_at : LevelKey → PriceLevelRow → Bool
row_at k r = r.market == k.market && same_side r.side k.side && r.price == k.price

unfoldable pub delete_level : LevelKey → List PriceLevelRow → List PriceLevelRow
delete_level k [] = []
delete_level k (r ∷ rs) = let rest = delete_level k rs in if row_at k r then rest else r ∷ rest

unfoldable pub find_level : LevelKey → List PriceLevelRow → Option PriceLevelRow
find_level k [] = none
find_level k (r ∷ rs) = if row_at k r then some r else find_level k rs

-- One order that rests at the key is counted in.
unfoldable pub count_level : PriceLevelRow → Order → PriceLevelRow
count_level level item = record level {
  quantity = level.quantity + val item.remaining_quantity;
  order_count = level.order_count + 1;
  first_sequence_id =
      if level.first_sequence_id == 0
        || item.sequence_id != 0 && ltb item.sequence_id level.first_sequence_id
      then item.sequence_id
      else level.first_sequence_id;
}

-- The loop over the rows that are found at the key.
unfoldable pub sum_level : LevelKey → PriceLevelRow → List Order → PriceLevelRow
sum_level k level [] = level
sum_level k level (o ∷ os) = sum_level k (if at_key k o then count_level level o else level) os

abbrev pub empty_level : ℕ → LevelKey → PriceLevelRow
empty_level now k = record {
  market = k.market;
  side = k.side;
  price = k.price;
  quantity = 0;
  order_count = 0;
  first_sequence_id = 0;
  last_updated_at = now;
}

-- The level that is shown at a key, if any order rests there.
unfoldable pub level_at : ℕ → LevelKey → List Order → Option PriceLevelRow
unfolding sum_level count_level
level_at now k active =
    let level = sum_level k (empty_level now k) active in
    if level.order_count == 0 then none else some level

-- The row of a key is replaced, or deleted where nothing rests.
abbrev pub store_level : LevelKey → Option PriceLevelRow → List PriceLevelRow → List PriceLevelRow
store_level k none rows = delete_level k rows
store_level k (some r) rows = r ∷ delete_level k rows

unfoldable pub refresh_levels :
    ℕ → List LevelKey → List Order → List PriceLevelRow → List PriceLevelRow
refresh_levels now [] active rows = rows
refresh_levels now (k ∷ ks) active rows =
    refresh_levels now ks active
      (if is_blank_key k then rows else store_level k (level_at now k active) rows)

-- `RefreshPriceLevels`; the tracker holds no key twice.
unfoldable pub refresh_price_levels : ℕ → List LevelKey → Tx (Unit {0})
refresh_price_levels now keys =
    modify (λ t. record t { levels = refresh_levels now keys t.active t.levels })

unfoldable pub rests_at : PriceLevelRow → List Order → Bool
rests_at r [] = false
rests_at r (o ∷ os) =
    o.market == r.market && same_side o.side r.side && o.price == r.price && is_bookable_order o
    || rests_at r os

unfoldable pub prune_levels : ℕ → List Order → List PriceLevelRow → List PriceLevelRow
prune_levels market active [] = []
prune_levels market active (r ∷ rs) =
    let rest = prune_levels market active rs in
    if r.market == market && not (rests_at r active) then rest else r ∷ rest

-- `PruneStalePriceLevels`
unfoldable pub prune_stale_price_levels : ℕ → Tx (Unit {0})
prune_stale_price_levels market =
    modify
      (λ t. if market == 0 then t else record t { levels = prune_levels market t.active t.levels })

-- `PriceLevelDeltas`: the rows of the keys; an empty one stands for a level that is gone.
unfoldable pub level_deltas : List LevelKey → List PriceLevelRow → List PriceLevelRow
level_deltas [] rows = []
level_deltas (k ∷ ks) rows =
    let rest = level_deltas ks rows in
    if is_blank_key k
    then rest
    else elim (find_level k rows) [ none ↦ empty_level 0 k ∷ rest | some r ↦ r ∷ rest ]

unfoldable pub price_level_deltas : List LevelKey → Tx (List PriceLevelRow)
price_level_deltas keys = reads (λ t. level_deltas keys t.levels)

-- `refreshBookProjection`
unfoldable pub refresh_book_projection : ℕ → ℕ → List LevelKey → Tx (List PriceLevelRow)
refresh_book_projection now market keys = do
  refresh_price_levels now keys
  prune_stale_price_levels market
  price_level_deltas keys
