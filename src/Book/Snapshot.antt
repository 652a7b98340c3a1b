-- ===== src/Book/Snapshot.antt =====
-- book.go, `Snapshot`, and snapshot.go: what is shown of a book, and its state as it is saved and
-- restored.
pub mod Shown
pub mod Restored
use crosschainswap.Prelude.{
  ℕ, zero, suc, ◌+◌, ◌-◌, ◌*◌, ◌/◌, ◌%◌, ◌^◌, Bool, true, false, not, ◌&&◌, ◌||◌, List, [], ◌∷◌,
  ◌++◌, some, ok, err, Result, ◌>>=◌, ◌>>◌, reject_if, ltb, leb, ◌==◌, ◌!=◌, if◌then◌else◌, length,
}
use crosschainswap.Decimal.{Decimal, val, is_positive, add}
use crosschainswap.Order.{Side, Order}
use crosschainswap.Engine.{MatchError}
use crosschainswap.Book.{BookSide, MarketBook, new_market_book, is_bookable}
use crosschainswap.Book.Sides.{level}
use crosschainswap.Book.Resting.{load}

-- `orderbook.PriceLevel`
pub record PriceLevel : Type 0 where
  pub market : ℕ
  pub side : Side
  pub price : ℕ
  pub quantity : Decimal
  pub order_count : ℕ
  pub first_sequence_id : ℕ
  pub last_updated_at : ℕ

-- The variables of the loop over a queue.
pub record Summary : Type 0 where
  pub quantity : Decimal
  pub count : ℕ
  pub first_sequence : ℕ
  pub last_updated : ℕ

abbrev pub no_summary : Summary
no_summary = record { quantity = some 0; count = 0; first_sequence = 0; last_updated = 0 }

-- One order that is counted in.
unfoldable pub count_in : Summary → Order → Summary
count_in s item = record {
  quantity = add s.quantity item.remaining_quantity;
  count = suc s.count;
  first_sequence =
      if s.first_sequence == 0 || item.sequence_id != 0 && ltb item.sequence_id s.first_sequence
      then item.sequence_id
      else s.first_sequence;
  last_updated = if ltb s.last_updated item.updated_at then item.updated_at else s.last_updated;
}

unfoldable pub summarize : Summary → List Order → Summary
unfolding count_in
summarize s [] = s
summarize s (item ∷ items) = summarize (if is_bookable item then count_in s item else s) items

abbrev pub price_level : ℕ → Side → ℕ → Summary → PriceLevel
price_level market side price s = record {
  market = market;
  side = side;
  price = price;
  quantity = s.quantity;
  order_count = s.count;
  first_sequence_id = s.first_sequence;
  last_updated_at = s.last_updated;
}

-- The loop over the prices, with room for so many more levels; an empty level takes no room.
unfoldable pub levels_of : ℕ → ℕ → BookSide → List ℕ → List PriceLevel
levels_of zero market s prices = []
levels_of (suc room) market s [] = []
levels_of (suc room) market s (price ∷ prices) =
    let q = summarize no_summary (level s price) in
    let shown = price_level market s.side price q ∷ levels_of room market s prices in
    let rest = levels_of (suc room) market s prices in
    if q.count == 0 || not (is_positive q.quantity) then rest else shown

abbrev pub depth_of : ℕ → List ℕ → ℕ
depth_of depth prices = if depth == 0 || ltb (length prices) depth then length prices else depth

-- `snapshotSide`; a depth of 0, or below, shows every price.
unfoldable pub snapshot_side : ℕ → BookSide → ℕ → List PriceLevel
unfolding levels_of
snapshot_side market s depth = levels_of (depth_of depth s.prices) market s s.prices

-- `BookStateSnapshot`
pub record BookState : Type 0 where
  pub schema_version : ℕ
  pub market : ℕ
  pub base_asset : ℕ
  pub quote_asset : ℕ
  pub last_applied_sequence : ℕ
  pub created_at : ℕ
  pub active_orders : List Order
  pub checksum : ℕ

pub data SnapshotError : Type 0 where
  corrupt_version corrupt_market corrupt_checksum checksum_mismatch : SnapshotError
  load_failed : MatchError → SnapshotError
  log_starts_late snapshot_too_old retention_too_short age_near_retention : SnapshotError

-- The orders of a side, from the best price on.
unfoldable pub resting_orders : BookSide → List ℕ → List Order
resting_orders s [] = []
resting_orders s (price ∷ prices) = level s price ++ resting_orders s prices

abbrev pub lift_load : Result MatchError MarketBook → Result SnapshotError MarketBook
lift_load (ok b) = ok b
lift_load (err e) = err (SnapshotError.load_failed e)

-- `digest` is the hash of the encoded state, its checksum left empty.
module _ (digest : BookState → ℕ) where
  -- `computeChecksum`
  abbrev pub compute_checksum : BookState → ℕ
  compute_checksum s = digest (record s { checksum = 0 })

  -- `Seal`
  abbrev pub seal : BookState → BookState
  seal s = record s { checksum = compute_checksum s }

  -- `CaptureState`
  unfoldable pub capture_state : MarketBook → ℕ → ℕ → BookState
  unfolding resting_orders
  capture_state b sequence now = seal (record {
    schema_version = 1;
    market = b.market;
    base_asset = b.base_asset;
    quote_asset = b.quote_asset;
    last_applied_sequence = sequence;
    created_at = now;
    active_orders = resting_orders b.bids (b.bids).prices ++ resting_orders b.asks (b.asks).prices;
    checksum = 0;
  })

  -- `Validate`
  unfoldable pub validate_snapshot : BookState → Result SnapshotError (Unit {0})
  validate_snapshot s = do
    reject_if (s.schema_version != 1) SnapshotError.corrupt_version
    reject_if (s.market == 0) SnapshotError.corrupt_market
    reject_if (s.checksum == 0) SnapshotError.corrupt_checksum
    reject_if (s.checksum != compute_checksum s) SnapshotError.checksum_mismatch

  -- `RestoreMarketBook`
  unfoldable pub restore_market_book : BookState → Result SnapshotError MarketBook
  unfolding validate_snapshot
  restore_market_book s = do
    validate_snapshot s
    lift_load (load (new_market_book s.market s.base_asset s.quote_asset) s.active_orders)

-- `SnapshotRetentionGuard`; a time of 0 is the zero time.
pub record RetentionGuard : Type 0 where
  pub latest_snapshot_sequence : ℕ
  pub oldest_retained_sequence : ℕ
  pub snapshot_created_at : ℕ
  pub now : ℕ
  pub event_retention : ℕ
  pub max_snapshot_age : ℕ

-- `CheckSnapshotRetention`, where `now` is given and is no earlier than the snapshot.
unfoldable pub check_snapshot_retention : RetentionGuard → Result SnapshotError (Unit {0})
check_snapshot_retention g =
    let age = g.now - g.snapshot_created_at in
    (do
      reject_if (ltb ((g.latest_snapshot_sequence + 1) % 2 ^ 64) g.oldest_retained_sequence)
          SnapshotError.log_starts_late
      reject_if
          (ltb 0 g.max_snapshot_age && (g.snapshot_created_at == 0 || ltb g.max_snapshot_age age))
          SnapshotError.snapshot_too_old
      reject_if
          (ltb 0 g.event_retention
            && ltb 0 g.max_snapshot_age
            && ltb g.event_retention (g.max_snapshot_age * 3))
          SnapshotError.retention_too_short
      reject_if
          (ltb 0 g.event_retention && g.snapshot_created_at != 0 && ltb (g.event_retention / 3) age)
          SnapshotError.age_near_retention)
