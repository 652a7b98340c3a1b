-- ===== src/Orders/Build/Accepted.antt =====
-- What an order that `buildOrder` returns is fit for: the matching and the ledger take it.
use crosschainswap.Prelude.{
  ℕ, ◌<◌, ◌≡◌, ◌≢◌, refl, true, not, some, ok, >>=-eq-ok, reject_if-ok, arith, leb, ◌==◌, ◌||◌,
}
use crosschainswap.Prelude.Dict.{Dict, lookup}
use crosschainswap.Decimal.{val, mul_units}
use crosschainswap.Decimal.Laws.{mul_units_comm}
use crosschainswap.Order.{Order, is_market, is_ioc, is_valid_side, is_valid_type}
use crosschainswap.Engine.{validate_taker}
use crosschainswap.Book.{or_limit}
use crosschainswap.Ledger.Funds.{reserve_amount}
use crosschainswap.Orders.{NumberText, PlaceRequest, Market, OrderError}
use crosschainswap.Orders.Build.{
  parse_positive_decimal, enabled_market, validate_time_in_force, stop_of, new_order, build_order,
  normalize_order_time_in_force,
}

pub parse_positive_decimal-pos : (t : NumberText) (n : ℕ) → parse_positive_decimal t ≡ ok n → 0 < n
unfolding parse_positive_decimal
parse_positive_decimal-pos NumberText.blank n h = cc
parse_positive_decimal-pos (NumberText.ratio f s a d) n h = ground arith

enabled_market-found :
    (markets : Dict Market) (k : ℕ) (m : Market)
    → enabled_market markets k ≡ ok m
    → (lookup k markets ≡ some m) × (m.enabled ≡ true)
unfolding enabled_market
enabled_market-found markets k m h = ground arith

-- What the checks of `buildOrder` leave to know.
record Checked (markets : Dict Market) (id now : ℕ) (req : PlaceRequest) (o : Order) : Type 0 where
  place : Market
  price : ℕ
  quantity : ℕ
  stop : ℕ
  found : lookup req.market markets ≡ some place
  enabled : place.enabled ≡ true
  side : is_valid_side req.side ≡ true
  price_pos : 0 < price
  quantity_pos : 0 < quantity
  notional : 0 < mul_units price quantity
  tif :
      validate_time_in_force
        (or_limit req.type)
        (normalize_order_time_in_force (or_limit req.type) req.time_in_force)
      ≡ ok tt
  stopped : stop_of (or_limit req.type) req.stop_price ≡ ok stop

module _ (default_reservation : ℕ → ℕ → ℕ) (markets : Dict Market) (id now : ℕ) (req : PlaceRequest)
    {o : Order} (built : build_order default_reservation markets id now req ≡ ok o) where
  build_order-Checked :
      (c : Checked markets id now req o) × (o
        ≡ new_order default_reservation id now req c.place c.price c.quantity
            (normalize_order_time_in_force (or_limit req.type) req.time_in_force)
            c.stop)
  unfolding build_order
  build_order-Checked =
      let (m, found, k) = >>=-eq-ok (enabled_market markets req.market) _ built in
      let (side, k1) = reject_if-ok (not (is_valid_side req.side)) OrderError.side_invalid _ k in
      let (_, k2) =
        reject_if-ok (not (is_valid_type (or_limit req.type))) OrderError.type_invalid _ k1 in
      let (_, k3) = reject_if-ok (req.user_id == 0) OrderError.user_required _ k2 in
      let (_, k4) =
        reject_if-ok (req.client_order_id == 0) OrderError.client_order_id_required _ k3 in
      let (price, p, k5) = >>=-eq-ok (parse_positive_decimal req.price) _ k4 in
      let (quantity, q, k6) = >>=-eq-ok (parse_positive_decimal req.quantity) _ k5 in
      let (notional, k7) =
        reject_if-ok (leb (mul_units price quantity) 0) OrderError.notional_below_precision _ k6 in
      let (_, tif, k8) =
        >>=-eq-ok
          (validate_time_in_force (or_limit req.type)
            (normalize_order_time_in_force (or_limit req.type) req.time_in_force))
          _ k7 in
      let (stop, stopped, k9) = >>=-eq-ok (stop_of (or_limit req.type) req.stop_price) _ k8 in
      let (f, en) = enabled_market-found markets req.market m found in
      (
        record {
          place = m;
          price = price;
          quantity = quantity;
          stop = stop;
          found = f;
          enabled = en;
          side = ground arith;
          price_pos = parse_positive_decimal-pos req.price price p;
          quantity_pos = parse_positive_decimal-pos req.quantity quantity q;
          notional = ground arith;
          tif = tif;
          stopped = stopped;
        },
        cc,
      )

  -- What is accepted can be matched and backed: if ids and markets are not empty, an order that
  -- `buildOrder` returns passes the checks of the matching on its taker, holds back a positive amount, has
  -- nothing filled and all of its positive quantity left, and is ioc if it is a market order.
  pub build_order-valid :
      id ≢ 0
      → req.market ≢ 0
      → ((m : Market)
          → lookup req.market markets ≡ some m
          → (m.base_asset ≢ 0) × (m.quote_asset ≢ 0))
      → (validate_taker o ≡ ok tt)
        × (0 < reserve_amount o)
        × (val o.filled_quantity ≡ 0)
        × (o.remaining_quantity ≡ o.quantity)
        × (not (is_market o.type) || is_ioc o.time_in_force ≡ true)
  unfolding validate_taker reserve_amount new_order validate_time_in_force
  build_order-valid i m a =
      let (c, e) = build_order-Checked in
      let (b, q) = a (c.place) (c.found) in
      let s = c.side in
      let p = c.price_pos in
      let n = c.notional in
      let r = c.quantity_pos in
      let t = c.tif in
      rw e
        (ground arith, ground (arith, mul_units_comm c.price c.quantity), refl, refl, ground arith)
