-- ===== src/Orders/Rules.antt =====
-- service.go: the rules on the status, the stop price and the price of an order.
pub mod Stops
pub mod Takers
use crosschainswap.Prelude.{
  ℕ, ◌+◌, ◌-◌, ◌*◌, Bool, true, false, not, ◌&&◌, ◌||◌, List, [], ◌∷◌, Option, none, some, ok, err,
  reject_if, ltb, leb, ◌==◌, if◌then◌else◌,
}
use crosschainswap.Decimal.{is_positive}
use crosschainswap.Order.{Side, OrderType, Status, Order, Trade, is_market, is_ioc, is_buy, is_sell}
use crosschainswap.Orders.{OrderError, OrderResult}
use crosschainswap.Orders.Build.{is_stop_limit}

-- `stopTriggered`
unfoldable pub stop_triggered : Order → ℕ → Bool
stop_triggered item last_price =
    if is_buy item.side
    then leb item.stop_price last_price
    else if is_sell item.side
    then leb last_price item.stop_price
    else false

-- `stopPriceValidForLastPrice`; 0 is the empty price.
unfoldable pub stop_price_valid_for_last_price : Order → ℕ → Bool
stop_price_valid_for_last_price item last_price =
    if not (is_stop_limit item.type) || last_price == 0
    then true
    else if is_buy item.side
    then ltb last_price item.stop_price
    else if is_sell item.side
    then ltb item.stop_price last_price
    else false

-- The error of `validateStopPlacement`, by the side.
abbrev pub stop_error : Side → OrderError
stop_error Side.buy = OrderError.buy_stop_not_above
stop_error Side.sell = OrderError.sell_stop_not_below
stop_error (Side.other _) = OrderError.stop_side_invalid

-- `validateStopPlacement`, given the price of the last trade, if there is one.
unfoldable pub validate_stop_placement : Option ℕ → Order → OrderResult (Unit {0})
unfolding stop_price_valid_for_last_price
validate_stop_placement none item = ok tt
validate_stop_placement (some last) item =
    reject_if (is_stop_limit item.type && not (stop_price_valid_for_last_price item last))
      (stop_error item.side)

-- `validatePriceBand`, for a band in basis points: a band of more than the whole price has no lower
-- bound, as no price is below 0.
unfoldable pub validate_price_band : ℕ → Option ℕ → Order → OrderResult (Unit {0})
validate_price_band bps none item = ok tt
validate_price_band bps (some last) item =
    reject_if
      (ltb 0 bps
        && (ltb (item.price * 10000) (last * (10000 - bps))
            || ltb (last * (10000 + bps)) (item.price * 10000)))
      OrderError.price_band_exceeded

-- `lastTradePrice`
unfoldable pub last_trade_price : List Trade → ℕ
last_trade_price [] = 0
last_trade_price (x ∷ []) = x.price
last_trade_price (x ∷ y ∷ ys) = last_trade_price (y ∷ ys)

-- `cancelable`
abbrev pub cancelable : Status → Bool
cancelable Status.pending_match = true
cancelable Status.opened = true
cancelable Status.partially_filled = true
cancelable Status.pending_stop = true
cancelable _ = false

-- `cancelAlreadyTerminal`
abbrev pub cancel_already_terminal : Status → Bool
cancel_already_terminal Status.filled = true
cancel_already_terminal Status.canceled = true
cancel_already_terminal Status.expired = true
cancel_already_terminal _ = false

-- `knownStatus`
abbrev pub known_status : Status → Bool
known_status (Status.other _) = false
known_status _ = true

abbrev pub is_expired : Status → Bool
is_expired Status.expired = true
is_expired _ = false

-- `isImmediateOnly`
abbrev pub is_immediate_only : Order → Bool
is_immediate_only item = is_market item.type || is_ioc item.time_in_force

-- `shouldReleaseUnfilled`
unfoldable pub should_release_unfilled : Order → Bool
should_release_unfilled item = is_expired item.status && is_positive item.remaining_quantity

-- `effectiveMatchTaker`: unlike `effectiveBookTaker`, whatever price the order has.
unfoldable pub effective_match_taker : Order → Order
effective_match_taker item =
    if is_market item.type && is_sell item.side then record item { price = 1 } else item

-- `bookVersion`
unfoldable pub book_version : Order → ℕ → ℕ
book_version item sequence = if ltb 0 sequence then sequence else item.sequence_id

-- `maxResultSequence`, on the orders of the results, from the maximum so far.
unfoldable pub max_sequence_from : ℕ → List Order → ℕ
max_sequence_from max [] = max
max_sequence_from max (o ∷ os) =
    max_sequence_from (if ltb max o.sequence_id then o.sequence_id else max) os

abbrev pub max_result_sequence : List Order → ℕ
max_result_sequence os = max_sequence_from 0 os
