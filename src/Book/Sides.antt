-- ===== src/Book/Sides.antt =====
-- book.go: the prices of a side, best first, and the queue at a price.
use crosschainswap.Prelude.{
  ℕ, suc, Bool, false, List, [], ◌∷◌, Option, none, some, ltb, ◌==◌, if◌then◌else◌, length,
  get_elem?, insert_at, remove_nth,
}
use crosschainswap.Prelude.Dict.{lookup, insert, erase}
use crosschainswap.Prelude.Search.{sort_search}
use crosschainswap.Order.{Side, Order, is_buy}
use crosschainswap.Book.{BookSide, MarketBook, no_order, get_side, set_side}

-- `levels[price]`: a missing level is an empty queue.
abbrev pub or_empty : Option (List Order) → List Order
or_empty none = []
or_empty (some q) = q

abbrev pub level : BookSide → ℕ → List Order
level s price = or_empty (lookup price s.levels)

-- `bestPrice`
abbrev pub head? : List ℕ → Option ℕ
head? [] = none
head? (p ∷ ps) = some p

abbrev pub best_price : BookSide → Option ℕ
best_price s = head? s.prices

-- The test of the search in `insertPrice`: is the i-th price worse than `price`?
abbrev pub worse_at : Side → List ℕ → ℕ → ℕ → Bool
worse_at side prices price i = elim (get_elem? prices i) [
  | none ↦ false
  | some p ↦ if is_buy side then ltb p price else ltb price p
]

-- `insertPrice`
unfoldable pub insert_price : BookSide → ℕ → BookSide
insert_price s price = record s {
  prices =
      insert_at s.prices (sort_search (length s.prices) (worse_at s.side s.prices price)) price;
}

-- `removePrice` on the slice
unfoldable pub remove_first : ℕ → List ℕ → List ℕ
remove_first price [] = []
remove_first price (p ∷ ps) = if p == price then ps else p ∷ remove_first price ps

-- `removePrice`
abbrev pub remove_price : BookSide → ℕ → BookSide
remove_price s price = record s { prices = remove_first price s.prices }

-- A side whose queue at `price` is `queue`: an empty one goes, and its price too.
unfoldable pub put_queue : BookSide → ℕ → List Order → BookSide
put_queue s price [] = remove_price (record s { levels = erase price s.levels }) price
put_queue s price (o ∷ os) = record s { levels = insert price (o ∷ os) s.levels }

-- `removeAt`
unfoldable pub remove_at : MarketBook → Side → ℕ → ℕ → MarketBook × Order
unfolding put_queue
remove_at b side price idx =
    let s = get_side b side in
    let queue = level s price in
    elim (get_elem? queue idx) [
      | none ↦ (b, no_order)
      | some removed ↦ (
        record (set_side b side (put_queue s price (remove_nth queue idx))) {
          orders = erase removed.id b.orders;
        },
        removed,
      )
    ]

-- The index of the order `id` in a queue: the loops of `Cancel` and `removeOrder`.
unfoldable pub index_of : ℕ → List Order → Option ℕ
index_of id [] = none
index_of id (o ∷ os) =
    if o.id == id then some 0 else elim (index_of id os) [ none ↦ none | some i ↦ some (suc i) ]
