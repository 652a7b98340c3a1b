-- ===== src/Book/Ranked/Book.antt =====
-- The operations on resting orders keep a book in order.
use crosschainswap.Prelude.{
  ℕ, true, ◌≡◌, ok, if◌then◌else◌, arith, Bool-cases, Option-cases, inl, inr, Result, refl,
  get_elem?, >>=-eq-ok, subst,
}
use crosschainswap.Prelude.Dict.{lookup}
use crosschainswap.Order.{Side, Order, is_buy}
use crosschainswap.Book.{
  BookSide, MarketBook, get_side, set_side, normalize_order, validate_resting, validate_market,
  is_bookable, new_market_book,
}
use crosschainswap.Book.Sides.{level, remove_at}
use crosschainswap.Book.Resting.{place, is_known, insert_resting}
use crosschainswap.Book.Ranked.{RestsAt, IsRanked, IsRankedBook}
use crosschainswap.Book.Ranked.Sides.{add_order-IsRanked, with_price-levels, put_queue-IsRanked}

-- The side that `side` stands for: anything but a buy is met as a sell.
abbrev pub which : Side → Side
which side = if is_buy side then Side.buy else Side.sell

pub get_side-IsRanked :
    (b : MarketBook) (side : Side) → IsRankedBook b → IsRanked (which side) (get_side b side)
get_side-IsRanked b side (x, y) = elim (Bool-cases (is_buy side)) [
  | inl e ↦ rw e x
  | inr e ↦ rw e y
]

pub set_side-IsRanked :
    (b : MarketBook) (side : Side) (s : BookSide)
    → IsRankedBook b
    → IsRanked (which side) s
    → IsRankedBook (set_side b side s)
set_side-IsRanked b side s (x, y) r = elim (Bool-cases (is_buy side)) [
  | inl e ↦ rw e (rw e at r, y)
  | inr e ↦ rw e (x, rw e at r)
]

pub remove_at-IsRanked :
    (b : MarketBook) (side : Side) (price i : ℕ)
    → IsRankedBook b
    → IsRankedBook (remove_at b side price i).0
unfolding remove_at
remove_at-IsRanked b side price i r =
    elim (Option-cases (get_elem? (level (get_side b side) price) i)) [
      | inl e ↦ rw (remove_at, e) r
      | inr (o, e) ↦
          rw (remove_at, e)
            (set_side-IsRanked b side _ r (
              put_queue-IsRanked (which side) (get_side b side) price i o
                (get_side-IsRanked b side r) e))
    ]

validate_resting-bookable :
    (b : MarketBook) (o : Order)
    → validate_resting b o ≡ ok tt
    → (is_bookable o ≡ true) × (o.side ≡ which o.side)
unfolding validate_resting is_bookable
validate_resting-bookable b o h =
    let (_, v, h1) = >>=-eq-ok (validate_market b o) _ h in (ground arith, ground arith)

place-IsRanked :
    (b : MarketBook) (o : Order)
    → IsRankedBook b
    → is_bookable o ≡ true
    → o.side ≡ which o.side
    → IsRankedBook (place b o)
unfolding place
place-IsRanked b o r k e =
    let side = get_side b o.side in
    let at : RestsAt (which o.side) o.price o = record {
      at_price = refl;
      on_side = e;
      bookable = k;
    } in
    set_side-IsRanked b o.side _ r (
      rw (with_price-levels side o.price)
        (add_order-IsRanked (which o.side) side o.price _ o (get_side-IsRanked b o.side r) at))

pub ok-inj : {E : Type 0} {A : Type 0} {x y : A} → ◌≡◌ {A = Result E A} (ok x) (ok y) → x ≡ y
ok-inj h = cc

-- An order that enters the book.
pub insert_resting-IsRanked :
    (b : MarketBook) (o : Order) {b' : MarketBook}
    → IsRankedBook b
    → insert_resting b o ≡ ok b'
    → IsRankedBook b'
unfolding insert_resting
insert_resting-IsRanked b o r h =
    let item = normalize_order b o in
    let (_, v, k) = >>=-eq-ok (validate_resting b item) _ h in
    let (x, y) = validate_resting-bookable b item v in
    elim (Bool-cases (is_known (lookup (item).id b.orders))) [
      | inl e ↦ cc (rw e at k)
      | inr e ↦ subst IsRankedBook (ok-inj (rw e at k)) (place-IsRanked b item r x y)
    ]

pub new_market_book-IsRanked : (m q a : ℕ) → IsRankedBook (new_market_book m q a)
unfolding new_market_book lookup
new_market_book-IsRanked m q a = (
  record { side_eq = refl; sorted = tt; listed = λ p. refl; queues = λ p x e. cc e },
  record { side_eq = refl; sorted = tt; listed = λ p. refl; queues = λ p x e. cc e },
)
