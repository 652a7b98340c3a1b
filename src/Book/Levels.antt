-- ===== src/Book/Levels.antt =====
-- book.go: which queues a write to one level of a book changes.
use crosschainswap.Prelude.{
  ℕ, Bool, true, not, ◌&&◌, ◌==◌, if◌then◌else◌, ◌≡◌, List, [], ◌∷◌, some, refl, arith, Bool-cases,
  inl, inr, get_elem?, remove_nth, insert_at,
}
use crosschainswap.Prelude.Dict.{insert, lookup-insert, lookup-erase}
use crosschainswap.Order.{Side, Order, is_buy}
use crosschainswap.Book.{BookSide, MarketBook, get_side, set_side}
use crosschainswap.Book.Sides.{level, put_queue, remove_at}
use crosschainswap.Book.Resting.{place, with_price, insert_index}
use crosschainswap.Book.Ranked.Sides.{with_price-levels}

-- Do two sides stand for the same half of the book, at the same price?
abbrev pub same_level : Side → ℕ → Side → ℕ → Bool
same_level side price side' price' =
    (if is_buy side then is_buy side' else not (is_buy side')) && price == price'

level-put_queue :
    (s : BookSide) (price : ℕ) (queue : List Order) (p : ℕ)
    → level (put_queue s price queue) p ≡ (if price == p then queue else level s p)
unfolding put_queue
level-put_queue s price [] p = elim (Bool-cases (price == p)) [
  | inl e ↦ rw (put_queue, lookup-erase price p s.levels, e) refl
  | inr e ↦ rw (put_queue, lookup-erase price p s.levels, e) refl
]
level-put_queue s price (o ∷ os) p = elim (Bool-cases (price == p)) [
  | inl e ↦ rw (put_queue, lookup-insert price p (o ∷ os) s.levels, e) refl
  | inr e ↦ rw (put_queue, lookup-insert price p (o ∷ os) s.levels, e) refl
]

level-insert :
    (s s' : BookSide) (price : ℕ) (queue : List Order) (p : ℕ)
    → level (record s' { levels = insert price queue s.levels }) p
      ≡ (if price == p then queue else level s p)
level-insert s s' price queue p = elim (Bool-cases (price == p)) [
  | inl e ↦ rw (lookup-insert price p queue s.levels, e) refl
  | inr e ↦ rw (lookup-insert price p queue s.levels, e) refl
]

-- A write to a side that changes one queue of it.
pub level-set_side :
    (b : MarketBook) (side : Side) (s : BookSide) (price : ℕ) (queue : List Order)
    → ((p : ℕ) → level s p ≡ (if price == p then queue else level (get_side b side) p))
    → (side' : Side) (p : ℕ)
    → level (get_side (set_side b side s) side') p
      ≡ (if same_level side price side' p then queue else level (get_side b side') p)
level-set_side b side s price queue h side' p = elim (Bool-cases (is_buy side)) [
  | inl x ↦ elim (Bool-cases (is_buy side')) [
    | inl y ↦ rw (x, y) (rw x at (h p))
    | inr y ↦ rw (x, y) refl
  ]
  | inr x ↦ elim (Bool-cases (is_buy side')) [
    | inl y ↦ rw (x, y) refl
    | inr y ↦ rw (x, y) (rw x at (h p))
  ]
]

-- `removeAt` takes the order from its queue and changes no other queue.
pub level-remove_at :
    (b : MarketBook) (side : Side) (price i : ℕ) (o : Order)
    → get_elem? (level (get_side b side) price) i ≡ some o
    → (side' : Side) (p : ℕ)
    → level (get_side (remove_at b side price i).0 side') p ≡ (
        if same_level side price side' p
        then remove_nth (level (get_side b side) price) i
        else level (get_side b side') p)
unfolding remove_at
level-remove_at b side price i o h side' p =
    let s = get_side b side in
    let queue = remove_nth (level s price) i in
    let k =
      level-set_side b side (put_queue s price queue) price queue (level-put_queue s price queue)
        side' p in
    rw (remove_at, h) k

-- `insertResting` puts the order into its queue and changes no other queue.
pub level-place :
    (b : MarketBook) (item : Order) (side' : Side) (p : ℕ)
    → level (get_side (place b item) side') p ≡ (
        if same_level item.side item.price side' p
        then insert_at
            (level (get_side b item.side) item.price)
            (insert_index (level (get_side b item.side) item.price) item.sequence_id)
            item
        else level (get_side b side') p)
unfolding place
level-place b item side' p =
    let side = get_side b item.side in
    let queue = level side item.price in
    let queue' = insert_at queue (insert_index queue item.sequence_id) item in
    let s = with_price side item.price in
    rw (place, with_price-levels side item.price)
      (level-set_side b item.side (record s { levels = insert item.price queue' side.levels })
        item.price queue' (λ q. level-insert side s item.price queue' q) side' p)

pub level-same_level :
    (b : MarketBook) (side : Side) (price : ℕ) (side' : Side) (p : ℕ)
    → same_level side price side' p ≡ true
    → level (get_side b side') p ≡ level (get_side b side) price
level-same_level b side price side' p h = elim (Bool-cases (is_buy side)) [
  | inl x ↦ elim (Bool-cases (is_buy side')) [
    | inl y ↦ let e : price ≡ p = ground (arith, (rw (x, y) at h)) in rw (x, y, e) refl
    | inr y ↦ cc (rw (x, y) at h)
  ]
  | inr x ↦ elim (Bool-cases (is_buy side')) [
    | inl y ↦ cc (rw (x, y) at h)
    | inr y ↦ let e : price ≡ p = ground (arith, (rw (x, y) at h)) in rw (x, y, e) refl
  ]
]
