-- ===== src/Book/Resting/Canceled.antt =====
-- book.go, `Cancel` and `ActiveOrder`: what is canceled is the active order, and it is gone.
use crosschainswap.Prelude.{
  ℕ, suc, ◌≡◌, false, List, [], ◌∷◌, none, some, ◌==◌, ==_refl, Bool-cases, Option-cases, inl, inr,
  refl, arith, get_elem?, subst, ap, remove_nth, if◌then◌else◌,
}
use crosschainswap.Prelude.Dict.{lookup, erase, lookup-erase}
use crosschainswap.Order.{Side, Status, Order}
use crosschainswap.Book.{BookOrderRef, MarketBook, get_side}
use crosschainswap.Book.Levels.{same_level, level-same_level, level-remove_at}
use crosschainswap.Book.Sides.{level, index_of, remove_at}
use crosschainswap.Book.Resting.{active_order, remove_order, cancel}

abbrev Found : ℕ → List Order → ℕ → Type 0
Found id queue i = (o : Order) × (get_elem? queue i ≡ some o) × (o.id ≡ id)

index_of-Found :
    (id : ℕ) (queue : List Order) (i : ℕ) → index_of id queue ≡ some i → Found id queue i
unfolding index_of
index_of-Found id [] i h = cc
index_of-Found id (o ∷ os) i h = elim (Bool-cases (o.id == id)) [
  | inl e ↦
      let k : 0 ≡ i = ground (arith, h, e) in
      subst (Found id (o ∷ os)) k (o, refl, ground (arith, e))
  | inr e ↦ elim (Option-cases (index_of id os)) [
    | inl n ↦ absurd (ground (arith, h, e, n))
    | inr (j, f) ↦
        let k : suc j ≡ i = ground (arith, h, e, f) in
        subst (Found id (o ∷ os)) k (index_of-Found id os j f)
  ]
]

-- `removeAt` on an order that is there.
remove_at-eq :
    (b : MarketBook) (side : _) (price i : ℕ) (o : Order)
    → get_elem? (level (get_side b side) price) i ≡ some o
    → ((remove_at b side price i).0.orders ≡ erase o.id b.orders)
      × ((remove_at b side price i).1 ≡ o)
unfolding remove_at
remove_at-eq b side price i o h = rw (remove_at, h) (refl, refl)

remove_order-forgets :
    (b : MarketBook) (id : ℕ) → id == 0 ≡ false → lookup id (remove_order b id).0.orders ≡ none
unfolding remove_order
remove_order-forgets b id z = elim (Option-cases (lookup id b.orders)) [
  | inl e ↦ rw (remove_order, z, e) e
  | inr (ref, e) ↦ elim (Option-cases (index_of id (level (get_side b ref.side) ref.price))) [
    | inl n ↦ rw (remove_order, z, e, n) (rw (lookup-erase id id b.orders, ==_refl id) refl)
    | inr (i, f) ↦
        let (o, at, same) = index_of-Found id _ i f in
        let gone = (remove_at-eq b ref.side ref.price i o at).0 in
        rw (remove_order, z, e, f, gone, lookup-erase o.id id b.orders, same, ==_refl id) refl
  ]
]

unknown-inactive : (b : MarketBook) (id : ℕ) → lookup id b.orders ≡ none → active_order b id ≡ none
unfolding active_order
unknown-inactive b id h = ground (arith, h)

-- After a cancel the order is active no more, whether or not it was active before.
cancel-active_order : (b : MarketBook) (id now : ℕ) → active_order (cancel b id now).0 id ≡ none
unfolding cancel active_order
cancel-active_order b id now = elim (Bool-cases (id == 0)) [
  | inl z ↦ rw (active_order, z) refl
  | inr z ↦ unknown-inactive (cancel b id now).0 id (remove_order-forgets b id z)
]

-- A queue without its first order of that id.
abbrev pub without : ℕ → List Order → List Order
without id [] = []
without id (o ∷ os) = if o.id == id then os else o ∷ without id os

remove_nth-index_of :
    (id : ℕ) (queue : List Order) (i : ℕ)
    → index_of id queue ≡ some i
    → remove_nth queue i ≡ without id queue
unfolding index_of
remove_nth-index_of id [] i h = cc
remove_nth-index_of id (o ∷ os) i h = elim (Bool-cases (o.id == id)) [
  | inl e ↦
      let k : 0 ≡ i = ground (arith, h, e) in rw e (subst (λ j. remove_nth (o ∷ os) j ≡ os) k refl)
  | inr e ↦ elim (Option-cases (index_of id os)) [
    | inl n ↦ absurd (ground (arith, h, e, n))
    | inr (j, f) ↦
        let k : suc j ≡ i = ground (arith, h, e, f) in
        rw e (
          subst (λ j. remove_nth (o ∷ os) j ≡ o ∷ without id os) k
            (ap (λ q. o ∷ q) (remove_nth-index_of id os j f)))
  ]
]

without-none : (id : ℕ) (queue : List Order) → index_of id queue ≡ none → without id queue ≡ queue
unfolding index_of
without-none id [] h = refl
without-none id (o ∷ os) h = elim (Bool-cases (o.id == id)) [
  | inl e ↦ absurd (ground (arith, h, e))
  | inr e ↦ elim (Option-cases (index_of id os)) [
    | inl n ↦ rw e (ap (λ q. o ∷ q) (without-none id os n))
    | inr (j, f) ↦ absurd (ground (arith, h, e, f))
  ]
]

module _ (b : MarketBook) (id now : ℕ) (ref : BookOrderRef) (named : id == 0 ≡ false)
    (known : lookup id b.orders ≡ some ref) where
  -- A cancel of an order that the book knows, by an id that is not empty, takes it from the queue of
  -- its side and price, leaves every other order of that queue in its place and every other queue as
  -- it was, and after it the order is active no more.
  pub cancel-removes :
      ((side : Side) (p : ℕ)
        → level (get_side (cancel b id now).0 side) p ≡ (
            if same_level ref.side ref.price side p
            then without id (level (get_side b ref.side) ref.price)
            else level (get_side b side) p))
      × (active_order (cancel b id now).0 id ≡ none)
  unfolding cancel remove_order
  cancel-removes = (
    λ side p. elim (Option-cases (index_of id (level (get_side b ref.side) ref.price))) [
      | inl n ↦
          rw (cancel, remove_order, named, known, n, without-none id _ n)
            (elim (Bool-cases (same_level ref.side ref.price side p)) [
              | inl e ↦ rw e (level-same_level b ref.side ref.price side p e)
              | inr e ↦ rw e refl
            ])
      | inr (i, f) ↦
          let (o, at, _) = index_of-Found id _ i f in
          rw (cancel, remove_order, named, known, f, ← remove_nth-index_of id _ i f)
            (level-remove_at b ref.side ref.price i o at side p)
    ],
    cancel-active_order b id now,
  )

-- The order that a cancel returns is the one that was active, marked as canceled at the time given;
-- where none was active it returns none.
cancel-returns :
    (b : MarketBook) (id now : ℕ)
    → (cancel b id now).1 ≡ elim (active_order b id) [
      | none ↦ none
      | some o ↦ some (record o { status = Status.canceled; updated_at = now })
    ]
unfolding cancel remove_order active_order
cancel-returns b id now = elim (Bool-cases (id == 0)) [
  | inl z ↦ rw (cancel, active_order, remove_order, z) refl
  | inr z ↦ elim (Option-cases (lookup id b.orders)) [
    | inl e ↦ rw (cancel, active_order, remove_order, z, e) refl
    | inr (ref, e) ↦ elim (Option-cases (index_of id (level (get_side b ref.side) ref.price))) [
      | inl n ↦ rw (cancel, active_order, remove_order, z, e, n) refl
      | inr (i, f) ↦
          let (o, at, same) = index_of-Found id _ i f in
          let back = (remove_at-eq b ref.side ref.price i o at).1 in
          rw (cancel, active_order, remove_order, z, e, f, at, back) refl
    ]
  ]
]
