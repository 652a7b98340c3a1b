-- ===== src/Orders/Build.antt =====
-- service.go, `buildOrder`: the checks on a request and the order that comes of it.
pub mod Accepted
use crosschainswap.Prelude.{
  ℕ, zero, suc, ◌+◌, ◌*◌, ◌/◌, ◌^◌, Bool, true, false, not, ◌&&◌, ◌||◌, Option, none, some, ok, err,
  ◌>>=◌, ◌>>◌, reject_if, ltb, leb, ◌==◌, if◌then◌else◌,
}
use crosschainswap.Prelude.Dict.{Dict, lookup}
use crosschainswap.Decimal.{scale, one, mul_units}
use crosschainswap.Order.{
  Side, OrderType, Status, TimeInForce, Order, is_valid_side, is_valid_type, is_valid_time_in_force,
  is_market, is_ioc,
}
use crosschainswap.Book.{or_limit, or_gtc}
use crosschainswap.Orders.{NumberText, PlaceRequest, Market, OrderError, OrderResult}

-- `FloatString(Scale)` of a ratio, in units: the nearest one, a half goes up.
unfoldable pub round_units : ℕ → ℕ → ℕ
round_units numerator denominator = (2 * numerator * one + denominator) / (2 * denominator)

-- `parsePositiveDecimal`, and `decimal.String` of what it returns.
unfoldable pub parse_positive_decimal : NumberText → OrderResult ℕ
unfolding round_units
parse_positive_decimal NumberText.blank = err OrderError.decimal_required
parse_positive_decimal (NumberText.ratio digits negative n d) = do
  reject_if (ltb scale digits) OrderError.too_many_places
  reject_if (negative || n == 0) OrderError.decimal_not_positive
  reject_if (round_units n (suc d) == 0) OrderError.below_precision
  ok (round_units n (suc d))

-- `normalizeOrderTimeInForce`
abbrev pub normalize_order_time_in_force : OrderType → TimeInForce → TimeInForce
normalize_order_time_in_force OrderType.market (TimeInForce.other zero) = TimeInForce.ioc
normalize_order_time_in_force type tif = or_gtc tif

abbrev pub is_stop_limit : OrderType → Bool
is_stop_limit OrderType.stop_limit = true
is_stop_limit _ = false

abbrev pub is_limit : OrderType → Bool
is_limit OrderType.limit = true
is_limit _ = false

-- The market that `s.markets.Get` finds, if it is enabled.
unfoldable pub enabled_market : Dict Market → ℕ → OrderResult Market
enabled_market markets symbol = elim (lookup symbol markets) [
  | none ↦ err OrderError.unknown_market
  | some m ↦ if m.enabled then ok m else err OrderError.unknown_market
]

-- The checks on the time in force.
unfoldable pub validate_time_in_force : OrderType → TimeInForce → OrderResult (Unit {0})
validate_time_in_force type tif = do
  reject_if (not (is_valid_time_in_force tif)) OrderError.time_in_force_invalid
  reject_if (is_market type && not (is_ioc tif)) OrderError.market_not_ioc
  reject_if (not (is_market type) && is_ioc tif && not (is_limit type)) OrderError.ioc_not_allowed

-- The stop price of a stop order; 0 for any other.
unfoldable pub stop_of : OrderType → NumberText → OrderResult ℕ
unfolding parse_positive_decimal
stop_of type text = if is_stop_limit type then parse_positive_decimal text else ok 0

abbrev pub initial_status : OrderType → Status
initial_status type = if is_stop_limit type then Status.pending_stop else Status.opened

-- `default_reservation` is the hash of the user and the client's order id in `orderReservationID`.
module _ (default_reservation : ℕ → ℕ → ℕ) where
  -- `orderReservationID`
  unfoldable pub order_reservation_id : PlaceRequest → ℕ
  order_reservation_id req =
      if req.reservation_id == 0
      then default_reservation req.user_id req.client_order_id
      else req.reservation_id

  -- The `order.Order` literal, with the id `id` of `idgen.New`.
  unfoldable pub new_order : ℕ → ℕ → PlaceRequest → Market → ℕ → ℕ → TimeInForce → ℕ → Order
  unfolding order_reservation_id
  new_order id now req m price quantity tif stop = record {
    id = id;
    client_order_id = req.client_order_id;
    reservation_id = order_reservation_id req;
    user_id = req.user_id;
    market = req.market;
    base_asset = m.base_asset;
    quote_asset = m.quote_asset;
    side = req.side;
    type = or_limit req.type;
    status = initial_status (or_limit req.type);
    time_in_force = tif;
    price = price;
    stop_price = stop;
    quantity = some quantity;
    filled_quantity = some 0;
    remaining_quantity = some quantity;
    sequence_id = 0;
    created_at = now;
    updated_at = now;
  }

  -- `buildOrder`
  unfoldable pub build_order : Dict Market → ℕ → ℕ → PlaceRequest → OrderResult Order
  unfolding new_order enabled_market validate_time_in_force stop_of
  build_order markets id now req =
      let type = or_limit req.type in
      let tif = normalize_order_time_in_force type req.time_in_force in
      (do
        m ← enabled_market markets req.market
        reject_if (not (is_valid_side req.side)) OrderError.side_invalid
        reject_if (not (is_valid_type type)) OrderError.type_invalid
        reject_if (req.user_id == 0) OrderError.user_required
        reject_if (req.client_order_id == 0) OrderError.client_order_id_required
        price ← parse_positive_decimal req.price
        quantity ← parse_positive_decimal req.quantity
        reject_if (leb (mul_units price quantity) 0) OrderError.notional_below_precision
        validate_time_in_force type tif
        stop ← stop_of type req.stop_price
        ok (new_order id now req m price quantity tif stop))
