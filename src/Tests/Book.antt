-- ===== src/Tests/Book.antt =====
-- The order book with the sellers of `Samples`, which the buyer of 5 meets.
use crosschainswap.Prelude.{ℕ, ◌+◌, ◌*◌, ◌≡◌, ◌⊎◌, refl, true, List, [], ◌∷◌, some, ok, All}
use crosschainswap.Prelude.Dict.{lookup, insert, erase}
use crosschainswap.Prelude.Search.{sort_search}
use crosschainswap.Decimal.{one, val, mul_units, min}
use crosschainswap.Order.{Side, Status, Order}
use crosschainswap.Engine.{
  MatchResult, fill, filled_by, trade_of, eligible_maker, crosses_price, validate_taker,
  expire_taker, is_self_trade, Outcome, status_for_remaining,
}
use crosschainswap.Engine.Run.{traded, IsFair}
use crosschainswap.Book.{
  BookOrderRef, MarketBook, get_side, new_market_book, normalize_order, is_bookable,
  validate_market, validate_resting,
}
use crosschainswap.Book.Sides.{
  level, best_price, insert_price, remove_at, put_queue, remove_first, index_of,
}
use crosschainswap.Book.Resting.Canceled.{without, cancel-removes}
use crosschainswap.Book.Levels.{same_level}
use crosschainswap.Book.Apply.Queued.{side_orders}
use crosschainswap.Engine.Limit.{Executed}
use crosschainswap.Book.Ranked.Loaded.{TakesTurns, load-TakesTurns}
use crosschainswap.Prelude.{none, if◌then◌else◌}
use crosschainswap.Book.Resting.{
  cancel, load, insert_resting, cancel, place, active_order, insert_index,
}
use crosschainswap.Book.Apply.{
  apply, apply_valid, book_loop, book_round, meet, keep_maker, finish_apply, validate_apply,
  effective_book_taker,
}
use crosschainswap.Book.Apply.Trades.{effective_price}
use crosschainswap.Book.Apply.Correct.{accepted, apply-total, apply_conserves, apply-IsFair}
use crosschainswap.Book.Ranked.{IsRankedBook, better}
use crosschainswap.Book.Ranked.Operations.{load-IsRanked}
use crosschainswap.Book.Ranked.Priority.{apply-IsRanked, best_price_first}
use crosschainswap.Tests.Samples.{
  ids, buyer, seller, dear_seller, dearest_seller, filled_order, outcome,
}

abbrev rests : Side → ℕ → BookOrderRef
rests side price = record { side = side; price = price * one }

abbrev items : List Order
items = dearest_seller ∷ dear_seller ∷ seller ∷ []

abbrev book : MarketBook
book = record {
  market = 1;
  base_asset = 2;
  quote_asset = 3;
  bids = record { side = Side.buy; prices = []; levels = [] };
  asks = record {
    side = Side.sell;
    prices = 2 * one ∷ 3 * one ∷ 4 * one ∷ [];
    levels =
        (4 * one, dearest_seller ∷ []) ∷ (3 * one, dear_seller ∷ []) ∷ (2 * one, seller ∷ []) ∷ [];
  };
  orders = (13, rests Side.sell 4) ∷ (12, rests Side.sell 3) ∷ (11, rests Side.sell 2) ∷ [];
}

abbrev resting_buyer : Order
resting_buyer = filled_order buyer 4 1 Status.partially_filled

abbrev book_after : MarketBook
book_after = record {
  market = 1;
  base_asset = 2;
  quote_asset = 3;
  bids = record {
    side = Side.buy;
    prices = 3 * one ∷ [];
    levels = (3 * one, resting_buyer ∷ []) ∷ [];
  };
  asks = record {
    side = Side.sell;
    prices = 4 * one ∷ [];
    levels = (4 * one, dearest_seller ∷ []) ∷ [];
  };
  orders = (13, rests Side.sell 4) ∷ (10, rests Side.buy 3) ∷ [];
}

load_sellers : load (new_market_book 1 2 3) items ≡ ok book
unfolding load insert_resting is_bookable new_market_book lookup insert insert_price sort_search
load_sellers = refl

apply_buyer : apply ids 50 book buyer ≡ some (book_after, ok outcome)
unfolding apply validate_apply lookup normalize_order validate_taker effective_book_taker
    validate_market book_round meet eligible_maker min mul_units fill filled_by keep_maker remove_at
    remove_first erase apply_valid book_loop finish_apply insert_index insert_resting place
    insert_price put_queue is_bookable validate_resting crosses_price expire_taker is_self_trade
    status_for_remaining trade_of insert sort_search
apply_buyer = refl

-- The buyer that rests is found again, and a cancel takes it out.
active_buyer : active_order book_after 10 ≡ some resting_buyer
unfolding active_order lookup index_of
active_buyer = refl

apply-total_example :
    (b : MarketBook) × (o : Outcome MatchResult) × (apply ids 50 book buyer ≡ some (b, o))
apply-total_example = apply-total ids 50 book buyer

apply_conserves_example :
    (val outcome.taker.filled_quantity
      ≡ val (accepted book buyer).filled_quantity + traded outcome.trades)
    × (val outcome.taker.remaining_quantity + traded outcome.trades
        ≡ val (accepted book buyer).remaining_quantity)
    × Executed (side_orders book.asks) outcome.makers outcome.trades
unfolding lookup normalize_order
apply_conserves_example = apply_conserves ids 50 book buyer apply_buyer

apply-IsFair_example :
    All (IsFair (effective_price (accepted book buyer)) (accepted book buyer)) outcome.trades
    × Executed (side_orders book.asks) outcome.makers outcome.trades
unfolding lookup normalize_order
apply-IsFair_example = apply-IsFair ids 50 book buyer apply_buyer

book-IsRanked : IsRankedBook book
book-IsRanked = load-IsRanked 1 2 3 items load_sellers

apply-IsRanked_example : IsRankedBook book_after
apply-IsRanked_example = apply-IsRanked ids 50 book buyer book-IsRanked apply_buyer

best_price_first_example :
    (p : ℕ) × (best_price book.asks ≡ some p)
    × ((dear_seller.price ≡ p) ⊎ (better Side.sell p dear_seller.price ≡ true))
unfolding lookup
best_price_first_example =
    best_price_first Side.sell book.asks (3 * one) 0 dear_seller book-IsRanked.1 refl

known_dear_seller : lookup 12 book.orders ≡ some (rests Side.sell 3)
unfolding lookup
known_dear_seller = refl

-- Three sellers at the same price, loaded in another order than that of their sequences.
abbrev sellers_at_three : List Order
sellers_at_three =
    record dearest_seller { price = 3 * one } ∷ record seller { price = 3 * one } ∷ dear_seller ∷ []

load_sellers_at_three : (b : MarketBook) × (load (new_market_book 1 2 3) sellers_at_three ≡ ok b)
unfolding load insert_resting is_bookable new_market_book lookup insert insert_price sort_search
    normalize_order validate_resting validate_market place insert_index
load_sellers_at_three = (_, refl)

load-TakesTurns_example : TakesTurns load_sellers_at_three.0
load-TakesTurns_example =
    load-TakesTurns 1 2 3 sellers_at_three
      (λ e. cc, (λ e. cc, (λ e. cc, tt)), (λ e. cc, (λ e. cc, tt), (λ e. cc, tt, tt)))
      load_sellers_at_three.1

cancel-removes_example :
    ((side : Side) (p : ℕ)
      → level (get_side (cancel book 12 60).0 side) p ≡ (
          if same_level Side.sell (3 * one) side p
          then without 12 (level book.asks (3 * one))
          else level (get_side book side) p))
    × (active_order (cancel book 12 60).0 12 ≡ none)
cancel-removes_example = cancel-removes book 12 60 (rests Side.sell 3) refl known_dear_seller
