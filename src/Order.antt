-- ===== src/Order.antt =====
-- internal/core/order/model.go and event.go, and internal/core/trade/model.go. A text that the
-- core only compares with another or with "" (an id, a user, a market, an asset) is a number, and 0
-- is the empty text. A price is counted in units of 10⁻¹⁸, and 0 is also the empty price; times are
-- in nanoseconds.
use crosschainswap.Prelude.{ℕ, Bool, true, false, ◌==◌}
use crosschainswap.Decimal.{Decimal}

-- `other` is any other text that stands in the field; `other 0` is the empty one.
pub data Side : Type 0 where
  buy sell : Side
  other : ℕ → Side

pub data OrderType : Type 0 where
  limit market stop_limit : OrderType
  other : ℕ → OrderType

pub data Status : Type 0 where
  pending_match pending_stop opened partially_filled filled canceled expired rejected : Status
  other : ℕ → Status

pub data TimeInForce : Type 0 where
  gtc ioc : TimeInForce
  other : ℕ → TimeInForce

pub record Order : Type 0 where
  pub id : ℕ
  pub client_order_id : ℕ
  pub reservation_id : ℕ
  pub user_id : ℕ
  pub market : ℕ
  pub base_asset : ℕ
  pub quote_asset : ℕ
  pub side : Side
  pub type : OrderType
  pub status : Status
  pub time_in_force : TimeInForce
  pub price : ℕ
  pub stop_price : ℕ
  pub quantity : Decimal
  pub filled_quantity : Decimal
  pub remaining_quantity : Decimal
  pub sequence_id : ℕ
  pub created_at : ℕ
  pub updated_at : ℕ

pub record Trade : Type 0 where
  pub id : ℕ
  pub market : ℕ
  pub base_asset : ℕ
  pub quote_asset : ℕ
  pub maker_order_id : ℕ
  pub taker_order_id : ℕ
  pub maker_user_id : ℕ
  pub taker_user_id : ℕ
  pub taker_side : Side
  pub price : ℕ
  pub quantity : Decimal
  pub quote_quantity : Decimal
  pub created_at : ℕ

-- `a == b` on the texts of a side.
abbrev pub same_side : Side → Side → Bool
same_side Side.buy Side.buy = true
same_side Side.sell Side.sell = true
same_side (Side.other a) (Side.other b) = a == b
same_side _ _ = false

-- `Side.Validate`: does it return nil?
abbrev pub is_valid_side : Side → Bool
is_valid_side (Side.other _) = false
is_valid_side _ = true

-- `Type.Validate`
abbrev pub is_valid_type : OrderType → Bool
is_valid_type (OrderType.other _) = false
is_valid_type _ = true

-- `TimeInForce.Validate`
abbrev pub is_valid_time_in_force : TimeInForce → Bool
is_valid_time_in_force (TimeInForce.other _) = false
is_valid_time_in_force _ = true

abbrev pub is_market : OrderType → Bool
is_market OrderType.market = true
is_market _ = false

abbrev pub is_ioc : TimeInForce → Bool
is_ioc TimeInForce.ioc = true
is_ioc _ = false

abbrev pub is_buy : Side → Bool
is_buy Side.buy = true
is_buy _ = false

abbrev pub is_sell : Side → Bool
is_sell Side.sell = true
is_sell _ = false

-- `status == StatusOpen || status == StatusPartiallyFilled`
abbrev pub is_active : Status → Bool
is_active Status.opened = true
is_active Status.partially_filled = true
is_active _ = false

pub data EventType : Type 0 where
  order_accepted order_canceled order_filled order_expired trade_created : EventType

pub record OrderEvent : Type 0 where
  pub order_id : ℕ
  pub user_id : ℕ
  pub market : ℕ
  pub type : EventType
  pub ref_id : ℕ
  pub created_at : ℕ
