-- ===== src/Orders.antt =====
-- internal/app/orders/service.go: the orders service. What it decides by itself is modelled: how a
-- request becomes an order, the rules on stops, prices and cancels, and the events of a match.
pub mod Build
pub mod Rules
pub mod Cancel
pub mod Events
use crosschainswap.Prelude.{ℕ, Bool, Result}
use crosschainswap.Order.{Side, OrderType, TimeInForce}

-- A decimal text of a request, as `decimal.Parse` and `decimal.FractionalDigits` read it. Its value
-- is numerator / (denominator_minus_one + 1), which is 0 for a text that is no number.
pub data NumberText : Type 0 where
  blank : NumberText
  ratio :
      (fractional_digits : ℕ) (negative : Bool) (numerator : ℕ) (denominator_minus_one : ℕ)
      → NumberText

-- `PlaceRequest`, with its words trimmed and in lower case; `other 0` is the empty word.
pub record PlaceRequest : Type 0 where
  pub client_order_id : ℕ
  pub reservation_id : ℕ
  pub user_id : ℕ
  pub market : ℕ
  pub side : Side
  pub type : OrderType
  pub time_in_force : TimeInForce
  pub price : NumberText
  pub stop_price : NumberText
  pub quantity : NumberText

-- `market.Market`, in a registry with its symbol as the key.
pub record Market : Type 0 where
  pub base_asset : ℕ
  pub quote_asset : ℕ
  pub enabled : Bool

-- The errors of the service; the messages that wrap `ErrInvalidOrder` are told apart.
pub data OrderError : Type 0 where
  unknown_market price_band_exceeded order_not_found user_mismatch not_cancelable : OrderError
  side_invalid type_invalid user_required client_order_id_required : OrderError
  decimal_required too_many_places decimal_not_positive below_precision : OrderError
  notional_below_precision time_in_force_invalid market_not_ioc ioc_not_allowed : OrderError
  buy_stop_not_above sell_stop_not_below stop_side_invalid : OrderError

abbrev pub OrderResult {ℓ} : Type ℓ → Type ℓ
OrderResult A = Result OrderError A
