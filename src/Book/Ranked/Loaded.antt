-- ===== src/Book/Ranked/Loaded.antt =====
-- book.go, `Load`: the orders of a loaded book stand in their queues in the turn of their sequences.
use crosschainswap.Prelude.{
  ℕ, ◌≡◌, ◌≢◌, List, [], ◌∷◌, ok, All, All-insert_at, insert_at, Bool-cases, inl, inr, >>=-eq-ok,
  subst, refl, sym,
}
use crosschainswap.Prelude.Dict.{lookup}
use crosschainswap.Order.{Side, Order, is_buy}
use crosschainswap.Book.{
  MarketBook, get_side, normalize_order, validate_resting, is_bookable, new_market_book,
}
use crosschainswap.Book.Sides.{level}
use crosschainswap.Book.Levels.{same_level, level-place}
use crosschainswap.Book.Resting.{place, is_known, insert_index, insert_resting, load}
use crosschainswap.Book.Ranked.Book.{ok-inj}
use crosschainswap.Book.Ranked.Turns.{InTurn, insert_index-InTurn}

-- Every queue of a book stands in the turn of its sequences.
abbrev pub TakesTurns : MarketBook → Type 0
TakesTurns b = (side : Side) (p : ℕ) → InTurn (level (get_side b side) p)

-- No order that rests has one of these orders' sequences.
abbrev Apart : Order → MarketBook → Type 0
Apart o b =
    (side : Side) (p : ℕ) → All (λ x. x.sequence_id ≢ o.sequence_id) (level (get_side b side) p)

abbrev AllApart : List Order → MarketBook → Type 0
AllApart [] b = Unit
AllApart (o ∷ os) b = Apart o b × AllApart os b

-- Each order has a sequence, and one that no later order has.
abbrev pub OwnSequences : List Order → Type 0
OwnSequences [] = Unit
OwnSequences (o ∷ os) =
    (o.sequence_id ≢ 0) × All (λ x. x.sequence_id ≢ o.sequence_id) os × OwnSequences os

-- A property of a queue holds after `insertResting` if it holds of the queue with the order in it.
place_keeps :
    (P : List Order → Type 0) (b : MarketBook) (o : Order)
    → ((side : Side) (p : ℕ) → P (level (get_side b side) p))
    → P (
        insert_at
          (level (get_side b o.side) o.price)
          (insert_index (level (get_side b o.side) o.price) o.sequence_id)
          o)
    → (side : Side) (p : ℕ) → P (level (get_side (place b o) side) p)
place_keeps P b o h k side p = elim (Bool-cases (same_level o.side o.price side p)) [
  | inl e ↦ subst P (sym (rw e at (level-place b o side p))) k
  | inr e ↦ subst P (sym (rw e at (level-place b o side p))) (h side p)
]

place-TakesTurns :
    (b : MarketBook) (o : Order)
    → o.sequence_id ≢ 0
    → Apart o b
    → TakesTurns b
    → TakesTurns (place b o)
place-TakesTurns b o n a t = place_keeps InTurn b o t (
    insert_index-InTurn (level (get_side b o.side) o.price) o (t o.side o.price) n
      (a o.side o.price))

place-Apart :
    (b : MarketBook) (o x : Order) → o.sequence_id ≢ x.sequence_id → Apart x b → Apart x (place b o)
place-Apart b o x n a =
    let other = λ (y : Order). y.sequence_id ≢ x.sequence_id in
    place_keeps (All other) b o a
      (All-insert_at other o (level (get_side b o.side) o.price) _ n (a o.side o.price))

place-AllApart :
    (b : MarketBook) (o : Order) (items : List Order)
    → All (λ x. x.sequence_id ≢ o.sequence_id) items
    → AllApart items b
    → AllApart items (place b o)
place-AllApart b o [] n a = tt
place-AllApart b o (x ∷ xs) n a =
    (place-Apart b o x (λ e. n.0 (sym e)) a.0, place-AllApart b o xs n.1 a.1)

-- An order that enters the book is placed, with its defaults.
insert_resting-place :
    (b : MarketBook) (o : Order) {b' : MarketBook}
    → insert_resting b o ≡ ok b'
    → place b (normalize_order b o) ≡ b'
unfolding insert_resting
insert_resting-place b o h =
    let item = normalize_order b o in
    let (_, v, k) = >>=-eq-ok (validate_resting b item) _ h in
    elim (Bool-cases (is_known (lookup (item).id b.orders))) [
      | inl e ↦ cc (rw e at k)
      | inr e ↦ ok-inj (rw e at k)
    ]

load-turns :
    (b : MarketBook) (items : List Order) {b' : MarketBook}
    → OwnSequences items
    → AllApart items b
    → TakesTurns b
    → load b items ≡ ok b'
    → TakesTurns b'
unfolding load normalize_order
load-turns b [] s a t h = subst TakesTurns (ok-inj h) t
load-turns b (o ∷ items) s a t h =
    let (n, later, others) = s in
    let item = normalize_order b o in
    elim (Bool-cases (is_bookable item)) [
      | inr e ↦ load-turns b items others a.1 t (rw (load, e) at h)
      | inl e ↦
          let (b₁, first, rest) = >>=-eq-ok (insert_resting b item) _ (rw (load, e) at h) in
          let placed = insert_resting-place b item first in
          let entry = normalize_order b item in
          load-turns b₁ items others
            (subst (AllApart items) placed (place-AllApart b entry items later a.1))
            (subst TakesTurns placed (place-TakesTurns b entry n a.0 t)) rest
    ]

empty-level :
    (m q a : ℕ) (side : Side) (p : ℕ) → level (get_side (new_market_book m q a) side) p ≡ []
unfolding new_market_book lookup
empty-level m q a side p = elim (Bool-cases (is_buy side)) [ inl e ↦ rw e refl | inr e ↦ rw e refl ]

empty-AllApart : (m q a : ℕ) (items : List Order) → AllApart items (new_market_book m q a)
empty-AllApart m q a [] = tt
empty-AllApart m q a (o ∷ os) =
    (λ side p. rw (empty-level m q a side p) tt, empty-AllApart m q a os)

-- In a book that was loaded from orders that have a sequence each, no two of them the same, every
-- queue stands in the turn of the sequences, whatever the order in which they were loaded.
pub load-TakesTurns :
    (market base_asset quote_asset : ℕ) (items : List Order) {b : MarketBook}
    → OwnSequences items
    → load (new_market_book market base_asset quote_asset) items ≡ ok b
    → TakesTurns b
load-TakesTurns market base_asset quote_asset items s h =
    load-turns _ items s (empty-AllApart market base_asset quote_asset items)
      (λ side p. rw (empty-level market base_asset quote_asset side p) tt) h
