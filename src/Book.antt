-- ===== src/Book.antt =====
-- internal/core/matching/book.go: the order book of one market. A side keeps its prices best first
-- and a queue for each price; `orders` says where an order that rests stands. The checks for a nil
-- book and a nil trade id factory are left out, as neither can be nil here.
pub mod Sides
pub mod Resting
pub mod Apply
pub mod Ranked
pub mod Levels
pub mod Snapshot
use crosschainswap.Prelude.{
  ℕ, zero, suc, ◌+◌, Bool, true, false, not, ◌&&◌, ◌||◌, List, [], ◌∷◌, Option, none, some, ok, err,
  ◌>>=◌, ◌>>◌, reject_if, ltb, leb, ◌==◌, ◌!=◌, if◌then◌else◌,
}
use crosschainswap.Prelude.Dict.{Dict}
use crosschainswap.Decimal.{Decimal, is_positive}
use crosschainswap.Order.{
  Side, OrderType, Status, TimeInForce, Order, is_market, is_ioc, is_buy, is_valid_side, is_active,
}
use crosschainswap.Engine.{MatchError, Outcome}

-- `bookSide`
pub record BookSide : Type 0 where
  pub side : Side
  pub prices : List ℕ
  pub levels : Dict (List Order)

-- `bookOrderRef`
pub record BookOrderRef : Type 0 where
  pub side : Side
  pub price : ℕ

-- `MarketBook`
pub record MarketBook : Type 0 where
  pub market : ℕ
  pub base_asset : ℕ
  pub quote_asset : ℕ
  pub bids : BookSide
  pub asks : BookSide
  pub orders : Dict BookOrderRef

-- `newBookSide`
abbrev pub new_book_side : Side → BookSide
new_book_side side = record { side = side; prices = []; levels = [] }

-- `NewMarketBook`
unfoldable pub new_market_book : ℕ → ℕ → ℕ → MarketBook
new_market_book market base_asset quote_asset = record {
  market = market;
  base_asset = base_asset;
  quote_asset = quote_asset;
  bids = new_book_side Side.buy;
  asks = new_book_side Side.sell;
  orders = [];
}

-- `order.Order{}`
abbrev pub no_order : Order
no_order = record {
  id = 0;
  client_order_id = 0;
  reservation_id = 0;
  user_id = 0;
  market = 0;
  base_asset = 0;
  quote_asset = 0;
  side = Side.other 0;
  type = OrderType.other 0;
  status = Status.other 0;
  time_in_force = TimeInForce.other 0;
  price = 0;
  stop_price = 0;
  quantity = none;
  filled_quantity = none;
  remaining_quantity = none;
  sequence_id = 0;
  created_at = 0;
  updated_at = 0;
}

-- The defaults of `normalizeOrder`, one for each type of field.
abbrev pub or_limit : OrderType → OrderType
or_limit (OrderType.other zero) = OrderType.limit
or_limit t = t

abbrev pub or_gtc : TimeInForce → TimeInForce
or_gtc (TimeInForce.other zero) = TimeInForce.gtc
or_gtc t = t

abbrev pub or_open : Status → Status
or_open (Status.other zero) = Status.opened
or_open s = s

abbrev pub or_amount : Decimal → Decimal → Decimal
or_amount none d = d
or_amount (some n) d = some n

abbrev pub or_name : ℕ → ℕ → ℕ
or_name a d = if a == 0 then d else a

-- `normalizeOrder`
unfoldable pub normalize_order : MarketBook → Order → Order
normalize_order b item = record item {
  type = or_limit item.type;
  time_in_force = or_gtc item.time_in_force;
  status = or_open item.status;
  filled_quantity = or_amount item.filled_quantity (some 0);
  remaining_quantity = or_amount item.remaining_quantity item.quantity;
  quantity = or_amount item.quantity (or_amount item.remaining_quantity item.quantity);
  market = or_name item.market b.market;
  base_asset = or_name item.base_asset b.base_asset;
  quote_asset = or_name item.quote_asset b.quote_asset;
}

-- `validateMarket`
unfoldable pub validate_market : MarketBook → Order → Outcome (Unit {0})
validate_market b item = do
  reject_if (b.market != 0 && item.market != b.market) MatchError.market_mismatch
  reject_if (b.base_asset != 0 && item.base_asset != 0 && item.base_asset != b.base_asset)
      MatchError.base_asset_mismatch
  reject_if (b.quote_asset != 0 && item.quote_asset != 0 && item.quote_asset != b.quote_asset)
      MatchError.quote_asset_mismatch

-- `validateResting`
unfoldable pub validate_resting : MarketBook → Order → Outcome (Unit {0})
unfolding validate_market
validate_resting b item = do
  validate_market b item
  reject_if (item.id == 0) MatchError.order_id_required
  reject_if (not (is_valid_side item.side)) MatchError.resting_side_invalid
  reject_if (is_market item.type) MatchError.market_cannot_rest
  reject_if (leb item.price 0) MatchError.resting_price_not_positive
  reject_if (not (is_positive item.remaining_quantity)) MatchError.resting_remaining_not_positive
  reject_if (not (is_active item.status)) MatchError.resting_not_active

-- `isBookable`
unfoldable pub is_bookable : Order → Bool
is_bookable item =
    if is_market item.type
    then false
    else if not (is_active item.status)
    then false
    else is_positive item.remaining_quantity

-- `isImmediateOnlyBookOrder`
abbrev pub is_immediate_only : Order → Bool
is_immediate_only item = is_market item.type || is_ioc item.time_in_force

-- `oppositeBookSide`
abbrev pub opposite_side : Side → Side
opposite_side side = if is_buy side then Side.sell else Side.buy

-- `side`: the bids for a buyer, the asks for anything else.
abbrev pub get_side : MarketBook → Side → BookSide
get_side b side = if is_buy side then b.bids else b.asks

-- A write through the pointer that `side` returns.
abbrev pub set_side : MarketBook → Side → BookSide → MarketBook
set_side b side s = if is_buy side then record b { bids = s } else record b { asks = s }
