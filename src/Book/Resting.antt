-- ===== src/Book/Resting.antt =====
-- book.go: orders enter the book, are looked up, and leave it.
pub mod Canceled
use crosschainswap.Prelude.{
  ℕ, Bool, true, false, ◌&&◌, List, [], ◌∷◌, Option, none, some, ok, err, ◌>>=◌, ◌>>◌, ltb, ◌==◌,
  ◌!=◌, if◌then◌else◌, length, get_elem?, insert_at,
}
use crosschainswap.Prelude.Dict.{lookup, insert, erase}
use crosschainswap.Prelude.Search.{sort_search}
use crosschainswap.Order.{Status, Order}
use crosschainswap.Engine.{MatchError, MatchResult, Outcome}
use crosschainswap.Book.{
  BookSide, BookOrderRef, MarketBook, get_side, set_side, normalize_order, validate_resting,
  is_bookable,
}
use crosschainswap.Book.Sides.{level, insert_price, remove_at, index_of}

-- The test of the search in `insertResting`: is the i-th order later than the sequence `seq`?
abbrev pub later_at : List Order → ℕ → ℕ → Bool
later_at queue seq i = elim (get_elem? queue i) [
  | none ↦ false
  | some o ↦ o.sequence_id != 0 && ltb seq o.sequence_id
]

-- Where an order enters a queue: behind all that are not later; one with no sequence goes last.
unfoldable pub insert_index : List Order → ℕ → ℕ
insert_index queue seq =
    if seq == 0 then length queue else sort_search (length queue) (later_at queue seq)

-- The side with the price of a new order among its prices.
abbrev pub with_price : BookSide → ℕ → BookSide
with_price s price = elim (lookup price s.levels) [ none ↦ insert_price s price | some _ ↦ s ]

-- The end of `insertResting`, for an order that may rest.
unfoldable pub place : MarketBook → Order → MarketBook
unfolding insert_index
place b item =
    let s = with_price (get_side b item.side) item.price in
    let queue = level s item.price in
    let queue' = insert_at queue (insert_index queue item.sequence_id) item in
    record (set_side b item.side (record s { levels = insert item.price queue' s.levels })) {
      orders = insert item.id (record { side = item.side; price = item.price }) b.orders;
    }

abbrev pub is_known : Option BookOrderRef → Bool
is_known none = false
is_known (some _) = true

-- `insertResting`
unfoldable pub insert_resting : MarketBook → Order → Outcome MarketBook
unfolding normalize_order validate_resting place
insert_resting b item₀ =
    let item = normalize_order b item₀ in
    (do
      validate_resting b item
      (if is_known (lookup item.id b.orders)
          then err MatchError.already_active
          else ok (place b item)))

-- `Load`
unfoldable pub load : MarketBook → List Order → Outcome MarketBook
load b [] = ok b
load b (item₀ ∷ items) =
    let item = normalize_order b item₀ in
    let skip = load b items in
    let take = insert_resting b item >>= λ b'. load b' items in
    if is_bookable item then take else skip

-- `ActiveOrder`
unfoldable pub active_order : MarketBook → ℕ → Option Order
active_order b id = if id == 0 then none else elim (lookup id b.orders) [
  | none ↦ none
  | some ref ↦
      let queue = level (get_side b ref.side) ref.price in
      elim (index_of id queue) [ none ↦ none | some i ↦ get_elem? queue i ]
]

-- `ActiveOrderCount`
abbrev pub active_order_count : MarketBook → ℕ
active_order_count b = length b.orders

-- `removeOrder`
unfoldable pub remove_order : MarketBook → ℕ → MarketBook × Option Order
remove_order b id = if id == 0 then (b, none) else elim (lookup id b.orders) [
  | none ↦ (b, none)
  | some ref ↦ elim (index_of id (level (get_side b ref.side) ref.price)) [
    | none ↦ (record b { orders = erase id b.orders }, none)
    | some i ↦ let (b', removed) = remove_at b ref.side ref.price i in (b', some removed)
  ]
]

-- `Cancel`: `removeOrder`, and the order comes back canceled.
unfoldable pub cancel : MarketBook → ℕ → ℕ → MarketBook × Option Order
unfolding remove_order
cancel b id now =
    let (b', removed) = remove_order b id in
    (
      b',
      elim removed [
        | none ↦ none
        | some o ↦ some (record o { status = Status.canceled; updated_at = now })
      ],
    )

-- The part of `ApplyResult` for one order: it leaves the book, and enters it again if it rests.
unfoldable pub replace_order : MarketBook → Order → Outcome MarketBook
unfolding remove_order
replace_order b item₀ =
    let b' = (remove_order b item₀.id).0 in
    let item = normalize_order b' item₀ in
    if is_bookable item then insert_resting b' item else ok b'

unfoldable pub replace_orders : MarketBook → List Order → Outcome MarketBook
replace_orders b [] = ok b
replace_orders b (item ∷ items) = replace_order b item >>= λ b'. replace_orders b' items

-- `ApplyResult`
unfoldable pub apply_result : MarketBook → MatchResult → Outcome MarketBook
unfolding replace_orders replace_order
apply_result b r = do
  b' ← replace_orders b r.makers
  (if r.taker.id == 0 then ok b' else replace_order b' r.taker)
