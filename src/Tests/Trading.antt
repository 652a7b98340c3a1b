-- ===== src/Tests/Trading.antt =====
-- The exchange with the buyer and the seller of `Samples` in the table of orders: user 7 has locked 15
-- of asset 3, and user 8 has locked 2 of asset 2.
use crosschainswap.Prelude.{ℕ, ◌+◌, ◌≡◌, refl, true, List, [], ◌∷◌, ok, arith}
use crosschainswap.Prelude.Dict.{lookup, insert}
use crosschainswap.Order.{Order}
use crosschainswap.Decimal.{val, is_positive, mul_units}
use crosschainswap.Engine.Run.{traded}
use crosschainswap.Orders.Rules.{effective_match_taker}
use crosschainswap.Ledger.Totals.{total}
use crosschainswap.Exchange.{Tables}
use crosschainswap.Exchange.ActiveOrders.{is_bookable_order, find_order}
use crosschainswap.Exchange.Synced.{IsSynced}
use crosschainswap.Trading.{Env, MatchingMode}
use crosschainswap.Trading.Match.{Matching, match_orders}
use crosschainswap.Trading.Match.Ends.{Returns, match_orders-total}
use crosschainswap.Trading.Match.Fair.{match_orders_conserves}
use crosschainswap.Trading.Service.{Request, serve}
use crosschainswap.Trading.Sound.{IsSound}
use crosschainswap.Trading.Sound.{serve-IsSound}
use crosschainswap.Decimal.{min}
use crosschainswap.Engine.{
  match_limit, validate_taker, match_makers, visit, fill, filled_by, status_for_remaining, trade_of,
  settle_status, eligible_maker, is_self_trade, crosses_price, expire_taker,
}
use crosschainswap.Exchange.{pure, reads, modify, throw, from_result, ◌>>=◌}
use crosschainswap.Exchange.ActiveOrders.{
  list_match_candidates, by_price, is_candidate, is_listed, save_orders, save_order, sync_active,
  upsert_order, delete_order,
}
use crosschainswap.Exchange.Levels.{touch, has_key}
use crosschainswap.Trading.Match.{
  match_loop, match_round, meet_candidates, after_round, close_matching,
}
use crosschainswap.Exchange.Queries.{select, insert_row, order_by, take}
use crosschainswap.Tests.Samples.{buyer, seller, ids}
use crosschainswap.Tests.Ledger.{locked_store, locked_store-AllBalanced}

abbrev pub env : Env
env = record {
  markets = [];
  price_band_bps = 0;
  mode = MatchingMode.immediate;
  now = 60;
  new_trade_id = ids;
  new_job_id = ids;
  default_reservation = λ user client. user + client;
  payload_hash = λ p. 1;
  result_hash = λ r levels. 1;
  digest = λ s. 1;
}

abbrev pub crossed : Tables
crossed = record {
  ledger = locked_store;
  active = buyer ∷ seller ∷ [];
  levels = [];
  sequences = [];
  trades = [];
  order_events = [];
  commands = [];
  command_log = [];
  command_sequences = [];
  jobs = [];
  match_log = [];
  snapshots = [];
}

abbrev held : ℕ → ℕ
held a = total a (locked_store.balances)

crossed-IsSynced : IsSynced (crossed.active) (crossed.ledger).orders
unfolding find_order is_bookable_order lookup
crossed-IsSynced id = ground arith

crossed-IsSound : IsSound held crossed
crossed-IsSound = record {
  totals = λ a. refl;
  accounted = locked_store-AllBalanced;
  synced = crossed-IsSynced;
}

abbrev pub requests : List (Env × Request)
requests = (env, Request.match_one 10) ∷ (env, Request.cancel_one 10 7) ∷ []

serve-IsSound_example : IsSound held (serve requests crossed)
serve-IsSound_example = serve-IsSound requests held crossed crossed-IsSound

match_orders-total_example : Returns (match_orders env buyer [] crossed)
match_orders-total_example = match_orders-total env buyer [] crossed

matched :
    (m : Matching) × (t : Tables) × (match_orders env buyer [] crossed ≡ ok (m, t))
    × (is_positive m.taker.remaining_quantity ≡ true)
unfolding match_orders match_loop match_round meet_candidates after_round close_matching
    list_match_candidates take order_by insert_row by_price select is_candidate is_listed
    is_bookable_order save_orders save_order sync_active upsert_order delete_order touch has_key
    insert effective_match_taker match_limit validate_taker match_makers visit fill filled_by
    status_for_remaining trade_of settle_status eligible_maker is_self_trade crosses_price
    expire_taker min mul_units pure reads modify throw from_result ◌>>=◌
matched = (_, _, refl, refl)

match_orders_conserves_example :
    (val matched.0.taker.filled_quantity ≡ val buyer.filled_quantity + traded matched.0.trades)
    × (val matched.0.taker.remaining_quantity + traded matched.0.trades
        ≡ val buyer.remaining_quantity)
match_orders_conserves_example =
    match_orders_conserves env buyer [] crossed matched.1 matched.0 matched.2
