-- ===== src/Book/Apply.antt =====
-- book.go, `Apply`: a taker goes through the best prices of the other side, and what is left of it
-- rests. The book that a failed call leaves half changed is kept beside the error.
pub mod Queued
pub mod Trades
pub mod Carried
pub mod Terminates
pub mod Correct
use crosschainswap.Prelude.{
  ℕ, zero, suc, ◌+◌, Bool, true, false, not, ◌&&◌, ◌||◌, List, [], ◌∷◌, Option, none, some, ok, err,
  ◌>>◌, leb, ◌==◌, ◌!=◌, if◌then◌else◌, length, reject_if,
}
use crosschainswap.Prelude.Dict.{Dict, lookup, insert}
use crosschainswap.Decimal.{is_positive, min, mul}
use crosschainswap.Order.{Side, Status, TimeInForce, Order, same_side, is_market, is_sell}
use crosschainswap.Engine.{
  MatchError, MatchResult, Outcome, validate_taker, is_self_trade, eligible_maker, crosses_price,
  fill, filled_by, expire_taker,
}
use crosschainswap.Book.{
  BookSide, MarketBook, get_side, set_side, normalize_order, validate_market, is_bookable,
  is_immediate_only, opposite_side,
}
use crosschainswap.Book.Sides.{level, best_price, remove_price, remove_at}
use crosschainswap.Book.Resting.{insert_resting, is_known}

-- `effectiveBookTaker`: a market order that sells with no price takes the least positive one.
unfoldable pub effective_book_taker : Order → Order
effective_book_taker item =
    if is_market item.type && is_sell item.side && leb item.price 0
    then record item { price = 1 }
    else item

-- What one round of the loop does.
pub data BookRound : Type 0 where
  stop : MarketBook → MatchResult → BookRound
  finish : MarketBook → MatchResult → BookRound
  fail : MarketBook → MatchError → BookRound
  again : MarketBook → MatchResult → BookRound

-- `levels[price][0] = maker`
abbrev pub set_head : Order → List Order → List Order
set_head o [] = []
set_head o (x ∷ xs) = o ∷ xs

abbrev pub is_filled : Status → Bool
is_filled Status.filled = true
is_filled _ = false

-- How the loop ends: by its test or a `break`, by the early `return`, or by an error.
pub data BookEnd : Type 0 where
  stopped : MarketBook → MatchResult → BookEnd
  returned : MarketBook → MatchResult → BookEnd
  failed : MarketBook → MatchError → BookEnd

abbrev pub proceed : BookRound → (MarketBook → MatchResult → Option BookEnd) → Option BookEnd
proceed (BookRound.stop b r) k = some (BookEnd.stopped b r)
proceed (BookRound.finish b r) k = some (BookEnd.returned b r)
proceed (BookRound.fail b e) k = some (BookEnd.failed b e)
proceed (BookRound.again b r) k = k b r

-- The statuses that the code behind the loop gives to the taker.
abbrev pub final_status : MatchResult → Status
final_status r =
    if not (is_positive r.taker.remaining_quantity)
    then Status.filled
    else if is_immediate_only r.taker
    then Status.expired
    else if length r.trades == 0
    then Status.opened
    else Status.partially_filled

abbrev pub with_status : ℕ → MatchResult → Status → MatchResult
with_status now r s = record r { taker = record (r.taker) { status = s; updated_at = now } }

abbrev pub rested : MarketBook → MatchResult → Outcome MarketBook → MarketBook × Outcome MatchResult
rested b r (ok b') = (b', ok r)
rested b r (err e) = (b, err e)

-- The code behind the loop: only a taker that is open or partially filled rests.
unfoldable pub finish_apply : ℕ → MarketBook → MatchResult → MarketBook × Outcome MatchResult
finish_apply now b r =
    let r' = with_status now r (final_status r) in
    if not (is_positive r.taker.remaining_quantity)
    then (b, ok r')
    else if is_immediate_only r.taker
    then (b, ok r')
    else rested b r' (insert_resting b r'.taker)

abbrev pub end_apply : ℕ → BookEnd → MarketBook × Outcome MatchResult
end_apply now (BookEnd.stopped b r) = finish_apply now b r
end_apply now (BookEnd.returned b r) = (b, ok r)
end_apply now (BookEnd.failed b e) = (b, err e)

-- The checks of `Apply`, on the taker with its defaults.
unfoldable pub validate_apply : MarketBook → Order → Outcome (Unit {0})
validate_apply b taker = do
  reject_if (is_known (lookup taker.id b.orders)) MatchError.already_active
  validate_taker (effective_book_taker taker)
  validate_market b taker

-- A market order is good at once or never.
abbrev pub market_is_ioc : Order → Order
market_is_ioc taker =
    if is_market taker.type then record taker { time_in_force = TimeInForce.ioc } else taker

-- The orders in the queues of a side.
abbrev pub queued : Dict (List Order) → ℕ
queued [] = 0
queued ((_, q) ∷ d) = length q + queued d

-- A round takes a price or an order from the side, or fills the taker.
abbrev pub rounds : BookSide → ℕ
rounds s = length s.prices + queued s.levels + 2

module _ (new_trade_id : ℕ → ℕ) (now : ℕ) where
  -- The book after the first maker of the queue at `price` became `maker`.
  unfoldable pub keep_maker : MarketBook → Side → ℕ → Order → MarketBook
  keep_maker b side price maker =
      let s = get_side b side in
      if is_filled maker.status
      then (remove_at b side price 0).0
      else set_side b side
          (record s { levels = insert price (set_head maker (level s price)) s.levels })

  -- A round at the maker that is first at the best price.
  unfoldable pub meet : MarketBook → MatchResult → Side → ℕ → Order → BookRound
  meet b r side price maker =
      let eff = effective_book_taker r.taker in
      let qty = min r.taker.remaining_quantity maker.remaining_quantity in
      let quote_quantity = mul qty (some maker.price) in
      if not (eligible_maker eff maker)
      then (if is_self_trade eff maker && crosses_price eff maker
          then BookRound.finish b (expire_taker now r)
          else if not (is_bookable maker)
              || maker.market != r.taker.market
              || same_side maker.side r.taker.side
          then BookRound.again (remove_at b side price 0).0 r
          else BookRound.stop b r)
      else if not (is_positive qty)
      then BookRound.again (remove_at b side price 0).0 r
      else if not (is_positive quote_quantity)
      then BookRound.fail b MatchError.quote_below_precision
      else BookRound.again (keep_maker b side price (filled_by now maker qty))
          (fill new_trade_id now r maker qty quote_quantity)

  -- The body of the loop; `side` is the makers' side.
  unfoldable pub book_round : MarketBook → MatchResult → Side → BookRound
  book_round b r side = elim (best_price (get_side b side)) [
    | none ↦ BookRound.stop b r
    | some price ↦ elim (level (get_side b side) price) [
      | [] ↦ BookRound.again (set_side b side (remove_price (get_side b side) price)) r
      | maker ∷ _ ↦ meet b r side price maker
    ]
  ]

  unfoldable pub book_loop : ℕ → Side → MarketBook → MatchResult → Option BookEnd
  book_loop zero side b r = none
  book_loop (suc fuel) side b r =
      if not (is_positive r.taker.remaining_quantity)
      then some (BookEnd.stopped b r)
      else proceed (book_round b r side) (book_loop fuel side)

  -- `Apply` behind its checks.
  unfoldable pub apply_valid : MarketBook → Order → Option (MarketBook × Outcome MatchResult)
  unfolding book_loop
  apply_valid b taker =
      let side = opposite_side taker.side in
      let start : MatchResult = record { taker = taker; makers = []; trades = [] } in
      elim (book_loop (rounds (get_side b side)) side b start) [
        | none ↦ none
        | some e ↦ some (end_apply now e)
      ]

  -- `Apply`; `none` would be that the fuel ran out.
  unfoldable pub apply : MarketBook → Order → Option (MarketBook × Outcome MatchResult)
  unfolding apply_valid
  apply b taker₀ =
      let taker = normalize_order b taker₀ in
      elim (validate_apply b taker) [
        | err e ↦ some (b, err e)
        | ok _ ↦ apply_valid b (market_is_ioc taker)
      ]
