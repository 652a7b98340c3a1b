-- ===== src/Trading/Match.antt =====
-- service.go, `match` and `matchWithBook`: a taker meets the active orders of the database, in
-- rounds of at most 500 candidates or all of them in a book.
pub mod Rounds
pub mod Ends
pub mod Gathered
pub mod Progress
pub mod Fair
use crosschainswap.Prelude.{
  ℕ, zero, suc, ◌+◌, Bool, true, false, not, ◌&&◌, List, [], ◌∷◌, ◌++◌, Result, ok, err, leb,
  if◌then◌else◌, length,
}
use crosschainswap.Decimal.{is_positive}
use crosschainswap.Order.{Side, Status, Order, Trade, is_sell}
use crosschainswap.Engine.{MatchResult, MatchError, match_limit}
use crosschainswap.Book.{MarketBook, new_market_book}
use crosschainswap.Book.Resting.{load}
use crosschainswap.Book.Apply.{apply}
use crosschainswap.Orders.Rules.{effective_match_taker, is_immediate_only, is_expired}
use crosschainswap.Exchange.{
  Tables, ExchangeError, Tx, pure, throw, reads, from_option, from_result, ◌>>=◌, ◌>>◌,
}
use crosschainswap.Exchange.ActiveOrders.{save_orders, list_match_candidates, list_active_orders}
use crosschainswap.Exchange.Levels.{LevelKey, touch, touch_all}
use crosschainswap.Trading.{Env}

-- `oppositeSide`
abbrev pub maker_side : Side → Side
maker_side Side.buy = Side.sell
maker_side _ = Side.buy

-- The variables of `match`: what it returns, and the keys that it touched.
pub record Matching : Type 0 where
  pub taker : Order
  pub makers : List Order
  pub trades : List Trade
  pub levels : List LevelKey

abbrev pub start_matching : Order → List LevelKey → Matching
start_matching taker levels = record {
  taker = taker;
  makers = [];
  trades = [];
  levels = touch taker levels;
}

-- The end of a round: does the loop go on?
unfoldable pub after_round : Matching → MatchResult → Matching × Bool
after_round m r =
    let taker = record (r.taker) { price = m.taker.price } in
    let makers = m.makers ++ r.makers in
    let levels = touch_all r.makers m.levels in
    elim r.trades [
      | x ∷ xs ↦ (
        record {
          taker = taker;
          makers = makers;
          trades = m.trades ++ r.trades;
          levels = touch taker levels;
        },
        true,
      )
      | [] ↦
          if is_expired taker.status
          then (
            record {
              taker = taker;
              makers = makers;
              trades = m.trades;
              levels = touch taker levels;
            },
            false,
          )
          else (record m { makers = makers; levels = levels }, false)
    ]

-- The assignments behind the loop.
abbrev pub final_taker_status : Bool → Status → Status
final_taker_status true s = Status.expired
final_taker_status false Status.partially_filled = Status.partially_filled
final_taker_status false Status.expired = Status.expired
final_taker_status false _ = Status.opened

unfoldable pub close_matching : Matching → Matching
close_matching m =
    let taker =
      if is_positive m.taker.remaining_quantity
      then record (m.taker) {
        status = final_taker_status (is_immediate_only m.taker) m.taker.status;
      }
      else m.taker in
    record m { taker = taker; levels = touch taker m.levels }

module _ (env : Env) where
  -- The ids of new trades: as many trades as `base` were made before.
  abbrev pub trade_ids : ℕ → ℕ → ℕ
  trade_ids base n = env.new_trade_id (base + n)

  -- A round with at least one candidate.
  unfoldable pub meet_candidates : ℕ → Matching → List Order → Tx (Matching × Bool)
  unfolding after_round
  meet_candidates base m [] = pure (m, false)
  meet_candidates base m (c ∷ cs) = do
    r ← from_result ExchangeError.of_match (
        match_limit (trade_ids (base + length m.trades)) env.now (effective_match_taker m.taker)
          (c ∷ cs))
    save_orders r.makers
    pure (after_round m r)

  -- The candidates of a round.
  abbrev pub candidates_of : Matching → Tables → List Order
  candidates_of m t =
      let taker = effective_match_taker m.taker in
      list_match_candidates taker.market (maker_side m.taker.side) taker.price taker.id 500 t.active

  unfoldable pub match_round : ℕ → Matching → Tx (Matching × Bool)
  match_round base m = do candidates ← reads (candidates_of m); meet_candidates base m candidates

  abbrev pub go_on : (Matching → Tx Matching) → Matching × Bool → Tx Matching
  go_on again (m, true) = again m
  go_on again (m, false) = pure m

  unfoldable pub match_loop : ℕ → ℕ → Matching → Tx Matching
  match_loop zero base m = throw ExchangeError.out_of_fuel
  match_loop (suc fuel) base m =
      let round = match_round base m >>= go_on (match_loop fuel base) in
      if is_positive m.taker.remaining_quantity then round else pure m

  -- `match`
  unfoldable pub match_orders : Order → List LevelKey → Tx Matching
  match_orders taker levels = do
    rows ← reads (λ t. length t.active)
    base ← reads (λ t. length t.trades)
    m ← match_loop (suc rows) base (start_matching taker levels)
    pure (close_matching m)

  abbrev pub of_book : Order → List LevelKey → MatchResult → Matching
  of_book taker levels r =
      let taker' = record (r.taker) { price = taker.price } in
      record {
        taker = taker';
        makers = r.makers;
        trades = r.trades;
        levels = touch_all r.makers (touch taker' (touch taker levels));
      }

  -- `matchWithBook`
  unfoldable pub match_with_book : Order → List LevelKey → Tx Matching
  match_with_book taker levels = do
    active ← reads (λ t. list_active_orders taker.market taker.id t.active)
    base ← reads (λ t. length t.trades)
    book ←
        from_result ExchangeError.of_match
          (load (new_market_book taker.market taker.base_asset taker.quote_asset) active)
    applied ← from_option ExchangeError.out_of_fuel (apply (trade_ids base) env.now book taker)
    r ← from_result ExchangeError.of_match applied.1
    pure (of_book taker levels r)
