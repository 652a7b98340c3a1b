-- ===== src/Book/Ranked/Operations.antt =====
-- Each operation on the book keeps it in order.
use crosschainswap.Prelude.{
  ℕ, Bool, true, false, ◌⊎◌, ◌≡◌, List, [], ◌∷◌, ok, ◌==◌, if◌then◌else◌, Bool-cases, Option-cases,
  inl, inr, >>=-eq-ok, subst,
}
use crosschainswap.Prelude.Dict.{lookup}
use crosschainswap.Order.{Order}
use crosschainswap.Engine.{MatchResult, Outcome}
use crosschainswap.Book.{MarketBook, get_side, normalize_order, is_bookable, new_market_book}
use crosschainswap.Book.Sides.{level, index_of}
use crosschainswap.Book.Resting.{
  insert_resting, load, remove_order, cancel, replace_order, replace_orders, apply_result,
}
use crosschainswap.Book.Ranked.{IsRankedBook}
use crosschainswap.Book.Ranked.Book.{
  insert_resting-IsRanked, remove_at-IsRanked, new_market_book-IsRanked, ok-inj,
}

load-keeps :
    (b : MarketBook) (items : List Order) {b' : MarketBook}
    → IsRankedBook b
    → load b items ≡ ok b'
    → IsRankedBook b'
unfolding load
load-keeps b [] r h = subst IsRankedBook (ok-inj h) r
load-keeps b (o ∷ items) r h = elim (Bool-cases (is_bookable (normalize_order b o))) [
  | inr e ↦ load-keeps b items r (rw (load, e) at h)
  | inl e ↦
      let (b₁, first, rest) =
        >>=-eq-ok (insert_resting b (normalize_order b o)) _ (rw (load, e) at h) in
      load-keeps b₁ items (insert_resting-IsRanked b (normalize_order b o) r first) rest
]

-- A book that was loaded from a list of orders is in order.
pub load-IsRanked :
    (market base_asset quote_asset : ℕ) (items : List Order) {b : MarketBook}
    → load (new_market_book market base_asset quote_asset) items ≡ ok b
    → IsRankedBook b
load-IsRanked market base_asset quote_asset items h =
    load-keeps _ items (new_market_book-IsRanked market base_asset quote_asset) h

remove_order-IsRanked :
    (b : MarketBook) (id : ℕ) → IsRankedBook b → IsRankedBook (remove_order b id).0
unfolding remove_order
remove_order-IsRanked b id r = elim (Bool-cases (id == 0)) [
  | inl z ↦ rw (remove_order, z) r
  | inr z ↦ elim (Option-cases (lookup id b.orders)) [
    | inl e ↦ rw (remove_order, z, e) r
    | inr (ref, e) ↦ elim (Option-cases (index_of id (level (get_side b ref.side) ref.price))) [
      | inl i ↦ rw (remove_order, z, e, i) r
      | inr (i, f) ↦ rw (remove_order, z, e, f) (remove_at-IsRanked b ref.side ref.price i r)
    ]
  ]
]

-- A cancel keeps the book in order.
cancel-IsRanked : (b : MarketBook) (id now : ℕ) → IsRankedBook b → IsRankedBook (cancel b id now).0
unfolding cancel
cancel-IsRanked b id now r = remove_order-IsRanked b id r

replace_order-IsRanked :
    (b : MarketBook) (o : Order) {b' : MarketBook}
    → IsRankedBook b
    → replace_order b o ≡ ok b'
    → IsRankedBook b'
unfolding replace_order
replace_order-IsRanked b o r h =
    let b₁ = (remove_order b o.id).0 in
    let item = normalize_order b₁ o in
    let r₁ = remove_order-IsRanked b o.id r in
    elim (Bool-cases (is_bookable item)) [
      | inl e ↦ insert_resting-IsRanked b₁ item r₁ (rw (replace_order, e) at h)
      | inr e ↦ subst IsRankedBook (ok-inj (rw (replace_order, e) at h)) r₁
    ]

replace_orders-IsRanked :
    (b : MarketBook) (items : List Order) {b' : MarketBook}
    → IsRankedBook b
    → replace_orders b items ≡ ok b'
    → IsRankedBook b'
unfolding replace_orders
replace_orders-IsRanked b [] r h = subst IsRankedBook (ok-inj h) r
replace_orders-IsRanked b (o ∷ items) r h =
    let (b₁, first, rest) = >>=-eq-ok (replace_order b o) _ h in
    replace_orders-IsRanked b₁ items (replace_order-IsRanked b o r first) rest

either_ok :
    (c : Bool) (x y : Outcome MarketBook) {b : MarketBook}
    → (if c then x else y) ≡ ok b
    → (x ≡ ok b) ⊎ (y ≡ ok b)
either_ok true x y h = inl h
either_ok false x y h = inr h

-- A result that is carried over to a book keeps it in order.
apply_result-IsRanked :
    (b : MarketBook) (m : MatchResult) {b' : MarketBook}
    → IsRankedBook b
    → apply_result b m ≡ ok b'
    → IsRankedBook b'
unfolding apply_result
apply_result-IsRanked b m r h =
    let (b₁, first, rest) = >>=-eq-ok (replace_orders b m.makers) _ h in
    let r₁ = replace_orders-IsRanked b m.makers r first in
    elim (either_ok ((m.taker).id == 0) _ _ rest) [
      | inl e ↦ subst IsRankedBook (ok-inj e) r₁
      | inr e ↦ replace_order-IsRanked b₁ m.taker r₁ e
    ]
