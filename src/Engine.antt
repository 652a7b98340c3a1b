-- ===== src/Engine.antt =====
-- internal/core/matching/engine.go: a taker is matched against a list of makers, best first.
-- The nil check on the trade id factory is left out: the factory is the argument `new_trade_id`,
-- which gives the id of the i-th trade of a call.
pub mod Run
pub mod Conservation
pub mod Fairness
pub mod Carried
pub mod Ends
pub mod Refines
pub mod Limit
pub mod Errors
use crosschainswap.Prelude.{
  Result, ok, err, ◌>>=◌, ◌>>◌, reject_if, ℕ, ◌+◌, ◌*◌, Bool, true, false, not, ◌&&◌, ◌||◌, List,
  [], ◌∷◌, ◌++◌, some, leb, ◌==◌, ◌!=◌, if◌then◌else◌, length,
}
use crosschainswap.Decimal.{Decimal, is_positive, min, add, sub_floor_zero, mul}
use crosschainswap.Order.{Side, Status, Order, Trade, same_side, is_valid_side, is_active}

-- The messages wrapped round `ErrInvalidMatch`, those of book.go included.
pub data MatchError : Type 0 where
  taker_id_required market_incomplete taker_side_invalid : MatchError
  taker_price_not_positive taker_remaining_not_positive quote_below_precision : MatchError
  already_active market_mismatch base_asset_mismatch quote_asset_mismatch : MatchError
  order_id_required resting_side_invalid market_cannot_rest : MatchError
  resting_price_not_positive resting_remaining_not_positive resting_not_active : MatchError

abbrev pub Outcome {ℓ} : Type ℓ → Type ℓ
Outcome A = Result MatchError A

-- `matching.Result`
pub record MatchResult : Type 0 where
  pub taker : Order
  pub makers : List Order
  pub trades : List Trade

unfoldable pub validate_taker : Order → Outcome (Unit {0})
validate_taker t = do
  reject_if (t.id == 0) MatchError.taker_id_required
  reject_if (t.market == 0 || t.base_asset == 0 || t.quote_asset == 0) MatchError.market_incomplete
  reject_if (not (is_valid_side t.side)) MatchError.taker_side_invalid
  reject_if (leb t.price 0) MatchError.taker_price_not_positive
  reject_if (not (is_positive t.remaining_quantity)) MatchError.taker_remaining_not_positive

unfoldable pub is_self_trade : Order → Order → Bool
is_self_trade taker maker = taker.user_id != 0 && taker.user_id == maker.user_id

-- The `switch` on the taker's side.
abbrev pub price_crosses : Side → Side → ℕ → ℕ → Bool
price_crosses Side.buy Side.sell taker_price maker_price = leb maker_price taker_price
price_crosses Side.sell Side.buy taker_price maker_price = leb taker_price maker_price
price_crosses _ _ _ _ = false

unfoldable pub eligible_maker : Order → Order → Bool
unfolding is_self_trade
eligible_maker taker maker =
    if maker.id == 0 || maker.id == taker.id
    then false
    else if maker.market != taker.market || same_side maker.side taker.side
    then false
    else if is_self_trade taker maker
    then false
    else if not (is_active maker.status)
    then false
    else if not (is_positive maker.remaining_quantity)
    then false
    else price_crosses taker.side maker.side taker.price maker.price

unfoldable pub crosses_price : Order → Order → Bool
crosses_price taker maker =
    if maker.id == 0 || maker.id == taker.id
    then false
    else if maker.market != taker.market || same_side maker.side taker.side
    then false
    else if not (is_active maker.status)
    then false
    else if not (is_positive maker.remaining_quantity)
    then false
    else price_crosses taker.side maker.side taker.price maker.price

unfoldable pub status_for_remaining : Decimal → Status
status_for_remaining remaining =
    if is_positive remaining then Status.partially_filled else Status.filled

-- The four assignments that a fill at time `now` makes to the maker, and to the taker.
unfoldable pub filled_by : ℕ → Order → Decimal → Order
unfolding status_for_remaining
filled_by now item qty = record item {
  filled_quantity = add item.filled_quantity qty;
  remaining_quantity = sub_floor_zero item.remaining_quantity qty;
  status = status_for_remaining (sub_floor_zero item.remaining_quantity qty);
  updated_at = now;
}

-- The early end on a self-trade.
unfoldable pub expire_taker : ℕ → MatchResult → MatchResult
expire_taker now r = record r {
  taker = record (r.taker) { status = Status.expired; updated_at = now };
}

-- The last `if` of `MatchLimit`, on the status and on whether something remains.
abbrev pub settled : Status → Bool → Status
settled s false = s
settled Status.partially_filled true = Status.partially_filled
settled Status.expired true = Status.expired
settled _ true = Status.opened

unfoldable pub settle_status : MatchResult → MatchResult
settle_status r = record r {
  taker = record (r.taker) {
    status = settled r.taker.status (is_positive r.taker.remaining_quantity);
  };
}

-- What one round of the loop does: it leaves the loop, fails, or goes on to the next maker.
pub data Round : Type 0 where
  leave : MatchResult → Round
  fail : MatchError → Round
  next : MatchResult → Round

abbrev pub proceed : Round → (MatchResult → Outcome MatchResult) → Outcome MatchResult
proceed (Round.leave r) k = ok r
proceed (Round.fail e) k = err e
proceed (Round.next r) k = k r

module _ (new_trade_id : ℕ → ℕ) (now : ℕ) where
  -- The `trade.Trade` literal of the n-th trade; it is stamped a microsecond after the one before.
  unfoldable pub trade_of : ℕ → Order → Order → Decimal → Decimal → Trade
  trade_of n taker maker qty quote_quantity = record {
    id = new_trade_id n;
    market = taker.market;
    base_asset = taker.base_asset;
    quote_asset = taker.quote_asset;
    maker_order_id = maker.id;
    taker_order_id = taker.id;
    maker_user_id = maker.user_id;
    taker_user_id = taker.user_id;
    taker_side = taker.side;
    price = maker.price;
    quantity = qty;
    quote_quantity = quote_quantity;
    created_at = now + 1000 * n;
  }

  -- The end of a round: the trade is appended, and both orders are filled.
  unfoldable pub fill : MatchResult → Order → Decimal → Decimal → MatchResult
  fill r maker qty quote_quantity = record {
    taker = filled_by now r.taker qty;
    makers = r.makers ++ filled_by now maker qty ∷ [];
    trades = r.trades ++ trade_of (length r.trades) r.taker maker qty quote_quantity ∷ [];
  }

  -- The body of the loop over the makers.
  unfoldable pub visit : MatchResult → Order → Round
  visit r maker =
      let qty = min r.taker.remaining_quantity maker.remaining_quantity in
      let quote_quantity = mul qty (some maker.price) in
      if not (is_positive r.taker.remaining_quantity)
      then Round.leave r
      else if not (eligible_maker r.taker maker)
      then (if is_self_trade r.taker maker && crosses_price r.taker maker
          then Round.leave (expire_taker now r)
          else Round.next r)
      else if not (is_positive qty)
      then Round.next r
      else if not (is_positive quote_quantity)
      then Round.fail MatchError.quote_below_precision
      else Round.next (fill r maker qty quote_quantity)

  unfoldable pub match_makers : MatchResult → List Order → Outcome MatchResult
  match_makers r [] = ok r
  match_makers r (maker ∷ makers) = proceed (visit r maker) (λ r'. match_makers r' makers)

  unfoldable pub match_limit : Order → List Order → Outcome MatchResult
  unfolding match_makers settle_status
  match_limit taker makers = do
    validate_taker taker
    r ← match_makers (record { taker = taker; makers = []; trades = [] }) makers
    ok (settle_status r)
