-- ===== src/Tests/Samples.antt =====
-- Orders that the tests share. Market 1 trades asset 2 for asset 3.
use crosschainswap.Prelude.{ℕ, ◌+◌, ◌*◌, some, List, [], ◌∷◌}
use crosschainswap.Decimal.{one}
use crosschainswap.Order.{Side, OrderType, Status, TimeInForce, Order, Trade}
use crosschainswap.Engine.{MatchResult}

-- A limit order: id, user, side, price and quantity in whole coins, sequence.
abbrev pub limit_order : ℕ → ℕ → Side → ℕ → ℕ → ℕ → Order
limit_order id user side price quantity sequence = record {
  id = id;
  client_order_id = id;
  reservation_id = id;
  user_id = user;
  market = 1;
  base_asset = 2;
  quote_asset = 3;
  side = side;
  type = OrderType.limit;
  status = Status.opened;
  time_in_force = TimeInForce.gtc;
  price = price * one;
  stop_price = 0;
  quantity = some (quantity * one);
  filled_quantity = some 0;
  remaining_quantity = some (quantity * one);
  sequence_id = sequence;
  created_at = 0;
  updated_at = 0;
}

-- User 7 buys 5 at up to 3; users 8 and 9 sell 2 each, at 2 and at 3, and user 8 sells 1 at 4.
abbrev pub buyer : Order
buyer = limit_order 10 7 Side.buy 3 5 4

abbrev pub seller : Order
seller = limit_order 11 8 Side.sell 2 2 1

abbrev pub dear_seller : Order
dear_seller = limit_order 12 9 Side.sell 3 2 2

abbrev pub dearest_seller : Order
dearest_seller = limit_order 13 8 Side.sell 4 1 3

abbrev pub ids : ℕ → ℕ
ids n = 100 + n

abbrev pub sellers : List Order
sellers = seller ∷ dear_seller ∷ dearest_seller ∷ []

abbrev pub filled_order : Order → ℕ → ℕ → Status → Order
filled_order o filled left s = record o {
  status = s;
  filled_quantity = some (filled * one);
  remaining_quantity = some (left * one);
  updated_at = 50;
}

abbrev pub trade_with : ℕ → Order → ℕ → Trade
trade_with n maker quantity = record {
  id = 100 + n;
  market = 1;
  base_asset = 2;
  quote_asset = 3;
  maker_order_id = maker.id;
  taker_order_id = 10;
  maker_user_id = maker.user_id;
  taker_user_id = 7;
  taker_side = Side.buy;
  price = maker.price;
  quantity = some (quantity * one);
  quote_quantity = some (quantity * maker.price);
  created_at = 50 + 1000 * n;
}

abbrev pub outcome : MatchResult
outcome = record {
  taker = filled_order buyer 4 1 Status.partially_filled;
  makers = filled_order seller 2 0 Status.filled ∷ filled_order dear_seller 2 0 Status.filled ∷ [];
  trades = trade_with 0 seller 2 ∷ trade_with 1 dear_seller 2 ∷ [];
}
