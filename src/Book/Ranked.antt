-- ===== src/Book/Ranked.antt =====
-- A book in order: the prices of a side go from the best to the worst, each price has a queue that
-- is not empty, and each order rests at its own price on its own side.
pub mod Prices
pub mod Sides
pub mod Book
pub mod Operations
pub mod Loop
pub mod Priority
pub mod Turns
pub mod Loaded
use crosschainswap.Prelude.{
  ℕ, Bool, true, false, ◌≡◌, ◌≢◌, ◌||◌, List, [], ◌∷◌, Option, none, some, ltb, ◌==◌, if◌then◌else◌,
  All,
}
use crosschainswap.Prelude.Dict.{lookup}
use crosschainswap.Order.{Side, Order, is_buy}
use crosschainswap.Book.{BookSide, MarketBook, is_bookable}

-- Is the price `p` better than `q` for who meets this side?
abbrev pub better : Side → ℕ → ℕ → Bool
better side p q = if is_buy side then ltb q p else ltb p q

abbrev pub IsSorted : Side → List ℕ → Type 0
IsSorted side [] = Unit
IsSorted side (p ∷ ps) = All (λ q. better side p q ≡ true) ps × IsSorted side ps

abbrev pub contains : ℕ → List ℕ → Bool
contains p [] = false
contains p (q ∷ qs) = q == p || contains p qs

abbrev pub has_queue : Option (List Order) → Bool
has_queue none = false
has_queue (some _) = true

pub record RestsAt (side : Side) (p : ℕ) (o : Order) : Type 0 where
  pub at_price : o.price ≡ p
  pub on_side : o.side ≡ side
  pub bookable : is_bookable o ≡ true

pub record IsRanked (side : Side) (s : BookSide) : Type 0 where
  pub side_eq : s.side ≡ side
  pub sorted : IsSorted side s.prices
  pub listed : (p : ℕ) → contains p s.prices ≡ has_queue (lookup p s.levels)
  pub queues :
      (p : ℕ) (q : List Order) → lookup p s.levels ≡ some q → (q ≢ []) × All (RestsAt side p) q

abbrev pub IsRankedBook : MarketBook → Type 0
IsRankedBook b = IsRanked Side.buy b.bids × IsRanked Side.sell b.asks
