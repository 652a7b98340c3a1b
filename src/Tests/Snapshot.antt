-- ===== src/Tests/Snapshot.antt =====
-- Snapshots of a book with one seller.
use crosschainswap.Prelude.{ℕ, suc, ◌<◌, ◌≡◌, refl, [], ◌∷◌, ok, All, length}
use crosschainswap.Prelude.Dict.{lookup, insert}
use crosschainswap.Prelude.Search.{sort_search}
use crosschainswap.Prelude.Dict.{erase}
use crosschainswap.Engine.{MatchResult}
use crosschainswap.Order.{Status}
use crosschainswap.Book.{no_order}
use crosschainswap.Book.Sides.{index_of, remove_at, put_queue, remove_first}
use crosschainswap.Book.Resting.{apply_result, replace_orders, replace_order, remove_order}
use crosschainswap.Book.Ranked.Operations.{load-IsRanked}
use crosschainswap.Tests.Samples.{filled_order}
use crosschainswap.Decimal.{val}
use crosschainswap.Book.{
  MarketBook, new_market_book, normalize_order, validate_market, validate_resting, is_bookable,
}
use crosschainswap.Book.Sides.{insert_price}
use crosschainswap.Book.Resting.{load, insert_resting, insert_index, place}
use crosschainswap.Book.Ranked.{IsRankedBook}
use crosschainswap.Book.Snapshot.{
  RetentionGuard, check_snapshot_retention, BookState, capture_state, validate_snapshot,
  restore_market_book, snapshot_side,
}
use crosschainswap.Book.Snapshot.Shown.{shown, resting_at, snapshot_side_complete}
use crosschainswap.Book.Snapshot.Restored.{capture_state-valid}
use crosschainswap.Tests.Samples.{seller}

loaded : (b : MarketBook) × (load (new_market_book 1 2 3) (seller ∷ []) ≡ ok b)
unfolding load insert_resting is_bookable new_market_book lookup insert insert_price sort_search
    normalize_order validate_resting validate_market place insert_index
loaded = (_, refl)

-- A digest that tells states apart by how many orders they have.
abbrev digest : BookState → ℕ
digest s = suc (length s.active_orders)

abbrev state : BookState
state = record {
  schema_version = 1;
  market = 1;
  base_asset = 2;
  quote_asset = 3;
  last_applied_sequence = 9;
  created_at = 50;
  active_orders = seller ∷ [];
  checksum = 2;
}

state_valid : validate_snapshot digest state ≡ ok tt
unfolding validate_snapshot
state_valid = refl

snapshot_side_complete_example :
    (shown (snapshot_side 1 (loaded.0).asks 0)
      ≡ resting_at (loaded.0).asks ((loaded.0).asks).prices)
    × All (λ x. (0 < val x.quantity) × (0 < x.order_count)) (snapshot_side 1 (loaded.0).asks 0)
snapshot_side_complete_example = snapshot_side_complete 1 (loaded.0).asks

capture_state-valid_example :
    validate_snapshot digest (capture_state digest (new_market_book 1 2 3) 9 50) ≡ ok tt
unfolding new_market_book
capture_state-valid_example =
    capture_state-valid digest (new_market_book 1 2 3) 9 50 (λ e. cc) (λ s e. cc)

restored : (b : MarketBook) × (restore_market_book digest state ≡ ok b)
unfolding restore_market_book validate_snapshot load insert_resting is_bookable new_market_book
    lookup insert insert_price sort_search normalize_order validate_resting validate_market place
    insert_index
restored = (_, refl)

-- The result of a match that left half of the seller is carried over to the book.
abbrev half_sold : MatchResult
half_sold = record {
  taker = no_order;
  makers = filled_order seller 1 1 Status.partially_filled ∷ [];
  trades = [];
}

carried : (b : MarketBook) × (apply_result loaded.0 half_sold ≡ ok b)
unfolding loaded apply_result replace_orders replace_order remove_order index_of remove_at put_queue
    remove_first insert_resting is_bookable lookup insert erase insert_price sort_search
    normalize_order validate_resting validate_market place insert_index
carried = (_, refl)

loaded-IsRanked : IsRankedBook loaded.0
loaded-IsRanked = load-IsRanked 1 2 3 (seller ∷ []) loaded.1

-- A snapshot at sequence 9, one hour old, of a log that starts at 5 and is kept for four hours.
abbrev guard : RetentionGuard
guard = record {
  latest_snapshot_sequence = 9;
  oldest_retained_sequence = 5;
  snapshot_created_at = 1000;
  now = 4600;
  event_retention = 14400;
  max_snapshot_age = 3600;
}

guard_passes : check_snapshot_retention guard ≡ ok tt
unfolding check_snapshot_retention
guard_passes = refl
