-- ===== src/Candles/Shape.antt =====
-- The shape of a candle: its prices lie between the low and the high, and it counts what was traded.
use crosschainswap.Prelude.{ℕ, ◌≤◌, ◌<◌, arith, List, [], ◌∷◌, All, Bool-cases, inl, inr}
use crosschainswap.Order.{Trade}
use crosschainswap.Candles.{
  Candle, supported_intervals, is_candle_of, first_candle, count_trade, update_candle, update_each,
  update_candles,
}

pub record IsShaped (c : Candle) : Type 0 where
  pub open_above : c.low ≤ c.open_price
  pub open_below : c.open_price ≤ c.high
  pub close_above : c.low ≤ c.close_price
  pub close_below : c.close_price ≤ c.high
  pub counted : 0 < c.trade_count

first_candle-IsShaped : (item : Trade) (i : ℕ) → IsShaped (first_candle item i)
first_candle-IsShaped item i = record {
  open_above = omega arith;
  open_below = omega arith;
  close_above = omega arith;
  close_below = omega arith;
  counted = omega arith;
}

count_trade-IsShaped : (item : Trade) (c : Candle) → IsShaped c → IsShaped (count_trade item c)
unfolding count_trade
count_trade-IsShaped item c s =
    let a = s.open_above in
    let b = s.open_below in
    let d = s.close_above in
    let e = s.close_below in
    record {
      open_above = ground (arith, a);
      open_below = ground (arith, b);
      close_above = ground (arith, d, e);
      close_below = ground (arith, d, e);
      counted = omega arith;
    }

update_candle-IsShaped :
    (item : Trade) (i : ℕ) (cs : List Candle)
    → All IsShaped cs
    → All IsShaped (update_candle item i cs)
unfolding update_candle
update_candle-IsShaped item i [] h = (first_candle-IsShaped item i, tt)
update_candle-IsShaped item i (c ∷ cs) h = elim (Bool-cases (is_candle_of item i c)) [
  | inl e ↦ rw e (count_trade-IsShaped item c h.0, h.1)
  | inr e ↦ rw e (h.0, update_candle-IsShaped item i cs h.1)
]

update_each-IsShaped :
    (item : Trade) (is : List ℕ) (cs : List Candle)
    → All IsShaped cs
    → All IsShaped (update_each item is cs)
unfolding update_each
update_each-IsShaped item [] cs h = h
update_each-IsShaped item (i ∷ is) cs h =
    update_each-IsShaped item is (update_candle item i cs) (update_candle-IsShaped item i cs h)

-- Whatever trades come, in whatever order, every candle keeps its shape: open and close lie between
-- low and high, and at least one trade is counted.
pub update_candles-IsShaped :
    (items : List Trade) (cs : List Candle)
    → All IsShaped cs
    → All IsShaped (update_candles items cs)
unfolding update_candles
update_candles-IsShaped [] cs h = h
update_candles-IsShaped (item ∷ items) cs h =
    update_candles-IsShaped items (update_each item supported_intervals cs)
      (update_each-IsShaped item supported_intervals cs h)
