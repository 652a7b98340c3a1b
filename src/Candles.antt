-- ===== src/Candles.antt =====
-- internal/core/trade/candle.go, and `UpdateCandles` of exchange_repository.go: what was traded in a
-- market in each span of time. A time is counted from the zero time, to which `Truncate` refers, and
-- an interval is known by its length.
pub mod Shape
pub mod Volumes
use crosschainswap.Prelude.{
  ℕ, ◌+◌, ◌-◌, ◌*◌, ◌%◌, ◌^◌, Bool, ◌&&◌, List, [], ◌∷◌, ltb, ◌==◌, leb, if◌then◌else◌,
}
use crosschainswap.Decimal.{val}
use crosschainswap.Order.{Trade}

pub record Candle : Type 0 where
  pub market : ℕ
  pub interval : ℕ
  pub open_time : ℕ
  pub close_time : ℕ
  pub open_price : ℕ
  pub high : ℕ
  pub low : ℕ
  pub close_price : ℕ
  pub volume_base : ℕ
  pub volume_quote : ℕ
  pub trade_count : ℕ
  pub last_trade_at : ℕ

abbrev pub candle_minute : ℕ
candle_minute = 60 * 10 ^ 9

-- `SupportedIntervals`
abbrev pub supported_intervals : List ℕ
supported_intervals =
    candle_minute
    ∷ 5 * candle_minute
    ∷ 15 * candle_minute
    ∷ 60 * candle_minute
    ∷ 240 * candle_minute
    ∷ 1440 * candle_minute
    ∷ []

-- `Truncate`
abbrev pub open_time_of : ℕ → ℕ → ℕ
open_time_of interval at = at - at % interval

abbrev pub is_candle_of : Trade → ℕ → Candle → Bool
is_candle_of item interval c =
    c.market == item.market
    && c.interval == interval
    && c.open_time == open_time_of interval item.created_at

abbrev pub first_candle : Trade → ℕ → Candle
first_candle item interval = record {
  market = item.market;
  interval = interval;
  open_time = open_time_of interval item.created_at;
  close_time = open_time_of interval item.created_at + interval;
  open_price = item.price;
  high = item.price;
  low = item.price;
  close_price = item.price;
  volume_base = val item.quantity;
  volume_quote = val item.quote_quantity;
  trade_count = 1;
  last_trade_at = item.created_at;
}

-- A trade is counted into a candle that is there.
unfoldable pub count_trade : Trade → Candle → Candle
count_trade item c =
    let is_last = leb c.last_trade_at item.created_at in
    record c {
      high = if ltb c.high item.price then item.price else c.high;
      low = if ltb item.price c.low then item.price else c.low;
      close_price = if is_last then item.price else c.close_price;
      last_trade_at = if is_last then item.created_at else c.last_trade_at;
      volume_base = c.volume_base + val item.quantity;
      volume_quote = c.volume_quote + val item.quote_quantity;
      trade_count = c.trade_count + 1;
    }

-- `updateCandle`
unfoldable pub update_candle : Trade → ℕ → List Candle → List Candle
unfolding count_trade
update_candle item interval [] = first_candle item interval ∷ []
update_candle item interval (c ∷ cs) =
    if is_candle_of item interval c
    then count_trade item c ∷ cs
    else c ∷ update_candle item interval cs

unfoldable pub update_each : Trade → List ℕ → List Candle → List Candle
update_each item [] cs = cs
update_each item (i ∷ is) cs = update_each item is (update_candle item i cs)

-- `UpdateCandles`
unfoldable pub update_candles : List Trade → List Candle → List Candle
update_candles [] cs = cs
update_candles (item ∷ items) cs = update_candles items (update_each item supported_intervals cs)
