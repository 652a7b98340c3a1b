-- ===== src/Tests/Orders.antt =====
-- The orders service on a request of user 7, on stop orders, on a cancel and on the match of
-- `Samples`.
use crosschainswap.Prelude.{
  ℕ, ◌+◌, ◌*◌, ◌<◌, ◌≡◌, ◌≢◌, refl, true, false, not, ◌||◌, ◌&&◌, List, [], ◌∷◌, some, ok, err,
  arith, leb, ltb, ◌==◌, ◌≤◌, if◌then◌else◌,
}
use crosschainswap.Prelude.Dict.{Dict, lookup, insert}
use crosschainswap.Decimal.{one, val, mul_units}
use crosschainswap.Order.{
  Side, OrderType, TimeInForce, Order, OrderEvent, is_market, is_ioc, is_sell,
}
use crosschainswap.Engine.{validate_taker}
use crosschainswap.Ledger.{
  Store, find_balance, put_balance, event_exists, create_balance_event, balance_for_update,
}
use crosschainswap.Ledger.Balances.{debit_locked, add_available_balance, move_locked_to_available}
use crosschainswap.Ledger.Reservations.{
  find_reservation, put_reservation, get_reservation, reservation_status, take_from,
  apply_reservation_delta,
}
use crosschainswap.Ledger.Funds.{
  reserve_asset, reserve_amount, reservation_id_for_order, clamp_to_reservation,
  clamped_release_amount, release_order_funds,
}
use crosschainswap.Orders.{NumberText, PlaceRequest, Market, OrderError}
use crosschainswap.Orders.Build.{
  round_units, parse_positive_decimal, enabled_market, validate_time_in_force, stop_of,
  order_reservation_id, new_order, build_order,
}
use crosschainswap.Orders.Build.Accepted.{build_order-valid}
use crosschainswap.Orders.Rules.Takers.{effective_takers-price}
use crosschainswap.Book.Apply.{effective_book_taker}
use crosschainswap.Orders.Rules.{effective_match_taker, validate_price_band}
use crosschainswap.Orders.Rules.Stops.{validate_price_band-distance}
use crosschainswap.Orders.Cancel.{cancel_order, close_order}
use crosschainswap.Orders.Cancel.Twice.{cancel_order-twice}
use crosschainswap.Tests.Samples.{limit_order, buyer}
use crosschainswap.Tests.Ledger.{locked_store}

abbrev pub markets : Dict Market
markets = (1, record { base_asset = 2; quote_asset = 3; enabled = true }) ∷ []

-- User 7 buys a third of a coin at 2.5.
abbrev pub request : PlaceRequest
request = record {
  client_order_id = 40;
  reservation_id = 0;
  user_id = 7;
  market = 1;
  side = Side.buy;
  type = OrderType.other 0;
  time_in_force = TimeInForce.other 0;
  price = NumberText.ratio 1 false 5 1;
  stop_price = NumberText.blank;
  quantity = NumberText.ratio 0 false 1 2;
}

abbrev pub reservations : ℕ → ℕ → ℕ
reservations user client = user * 1000 + client

built : (o : Order) × (build_order reservations markets 41 100 request ≡ ok o)
unfolding build_order new_order order_reservation_id enabled_market lookup validate_time_in_force
    stop_of parse_positive_decimal round_units mul_units
built = (_, refl)

market_assets : (m : Market) → lookup 1 markets ≡ some m → (m.base_asset ≢ 0) × (m.quote_asset ≢ 0)
unfolding lookup
market_assets m h = (λ e. ground arith, λ e. ground arith)

build_order-valid_example :
    (validate_taker built.0 ≡ ok tt)
    × (0 < reserve_amount built.0)
    × (val (built.0).filled_quantity ≡ 0)
    × ((built.0).remaining_quantity ≡ (built.0).quantity)
    × (not (is_market (built.0).type) || is_ioc (built.0).time_in_force ≡ true)
build_order-valid_example =
    build_order-valid reservations markets 41 100 request built.1 (λ e. cc) (λ e. cc) market_assets

-- A band of five percent about a price of 2, with a limit of 3.
validate_price_band-distance_example : validate_price_band 500 (some (2 * one)) buyer ≡ (
    if 500 == 0
      || leb (buyer.price * 10000) (2 * one * 10000 + 2 * one * 500)
        && leb (2 * one * 10000) (buyer.price * 10000 + 2 * one * 500)
    then ok tt
    else err OrderError.price_band_exceeded)
validate_price_band-distance_example = validate_price_band-distance 500 (2 * one) buyer

closed : (p : (Order × List OrderEvent) × Store) × (cancel_order 60 10 7 locked_store ≡ ok p)
unfolding cancel_order close_order lookup insert release_order_funds clamped_release_amount
    clamp_to_reservation get_reservation find_reservation put_reservation take_from
    reservation_status apply_reservation_delta move_locked_to_available debit_locked
    add_available_balance reserve_amount reserve_asset mul_units balance_for_update find_balance
    put_balance reservation_id_for_order create_balance_event event_exists
closed = (_, refl)

keyed_orders : (k : ℕ) (q : Order) → lookup k locked_store.orders ≡ some q → q.id ≡ k
unfolding lookup
keyed_orders k q h = ground arith

cancel_order-twice_example : cancel_order 70 10 7 closed.0.1 ≡ ok ((closed.0.0.0, []), closed.0.1)
cancel_order-twice_example = cancel_order-twice 60 10 7 locked_store closed.1 70 keyed_orders

-- A market order that sells and names the price 4.
abbrev market_seller : Order
market_seller = record (limit_order 51 8 Side.sell 4 1 0) {
  type = OrderType.market;
  time_in_force = TimeInForce.ioc;
}

effective_takers-price_example :
    ((effective_match_taker market_seller).price == (effective_book_taker market_seller).price
      ≡ not
          (is_market market_seller.type && is_sell market_seller.side && ltb 1 market_seller.price))
    × ((effective_match_taker market_seller).price ≤ (effective_book_taker market_seller).price)
effective_takers-price_example = effective_takers-price market_seller
