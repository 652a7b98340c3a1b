-- ===== src/Book/Apply/Queued.antt =====
-- The makers that stand in a side, in the order in which `Apply` meets them, and what a round of its
-- loop leaves of them.
use crosschainswap.Prelude.{
  ℕ, ◌≡◌, inl, inr, List, [], ◌∷◌, ◌++◌, some, ap, Bool-cases, remove_nth, ◌==◌, refl, arith, subst,
  sym, some-inj, ◌∙◌, List-cases,
}
use crosschainswap.Prelude.Dict.{lookup-insert, lookup-erase}
use crosschainswap.Prelude.Sublist.{
  Sublist, Sublist-nil, Sublist-refl, Sublist-trans, Sublist-append, Sublist-drop_left,
}
use crosschainswap.Order.{Side, Order, is_buy}
use crosschainswap.Book.{BookSide, MarketBook, get_side, set_side}
use crosschainswap.Book.Sides.{level, best_price, remove_price, remove_first, put_queue, remove_at}

-- The queues at some prices, one behind the other.
abbrev pub queues_at : BookSide → List ℕ → List Order
queues_at s [] = []
queues_at s (p ∷ ps) = level s p ++ queues_at s ps

-- The orders of a side: first by the place of their price, then by their place in its queue.
abbrev pub side_orders : BookSide → List Order
side_orders s = queues_at s s.prices

queues_at-Sublist :
    (s' s : BookSide)
    → ((p : ℕ) → Sublist (level s' p) (level s p))
    → (ps : List ℕ) → Sublist (queues_at s' ps) (queues_at s ps)
queues_at-Sublist s' s h [] = Sublist.nil
queues_at-Sublist s' s h (p ∷ ps) = Sublist-append (h p) (queues_at-Sublist s' s h ps)

pub get_side-set_side :
    (b : MarketBook) (side : Side) (s : BookSide) → get_side (set_side b side s) side ≡ s
get_side-set_side b side s = elim (Bool-cases (is_buy side)) [
  | inl h ↦ rw h refl
  | inr h ↦ rw h refl
]

pub remove_at-side :
    (b : MarketBook) (side : Side) (price : ℕ) (m : Order) (rest : List Order)
    → level (get_side b side) price ≡ m ∷ rest
    → get_side (remove_at b side price 0).0 side ≡ put_queue (get_side b side) price rest
unfolding remove_at
remove_at-side b side price m rest l = elim (Bool-cases (is_buy side)) [
  | inl h ↦ rw (remove_at, l, h) (ap (λ q. put_queue b.bids price (remove_nth q 0)) (rw h at l))
  | inr h ↦ rw (remove_at, l, h) (ap (λ q. put_queue b.asks price (remove_nth q 0)) (rw h at l))
]

remove_first-same : (p : ℕ) (ps : List ℕ) → remove_first p (p ∷ ps) ≡ ps
unfolding remove_first
remove_first-same p ps = ground arith

-- The queues of a side after one of them became its own rest.
put_queue-level :
    (s : BookSide) (price : ℕ) (m : Order) (rest : List Order)
    → level s price ≡ m ∷ rest
    → (p : ℕ) → Sublist (level (put_queue s price rest) p) (level s p)
unfolding put_queue
put_queue-level s price m [] l p = elim (Bool-cases (price == p)) [
  | inl e ↦ rw (put_queue, lookup-erase price p s.levels, e) (Sublist-nil (level s p))
  | inr e ↦ rw (put_queue, lookup-erase price p s.levels, e) (Sublist-refl (level s p))
]
put_queue-level s price m (o ∷ os) l p = elim (Bool-cases (price == p)) [
  | inl e ↦
      let same : price ≡ p = ground (arith, e) in
      let at : level s p ≡ m ∷ o ∷ os = rw (← same) l in
      rw (put_queue, lookup-insert price p (o ∷ os) s.levels, e, at)
        (Sublist.leave m (Sublist-refl (o ∷ os)))
  | inr e ↦ rw (put_queue, lookup-insert price p (o ∷ os) s.levels, e) (Sublist-refl (level s p))
]

put_queue-here :
    (s : BookSide) (price : ℕ) (o : Order) (os : List Order)
    → level (put_queue s price (o ∷ os)) price ≡ o ∷ os
unfolding put_queue
put_queue-here s price o os = ground (arith, lookup-insert price price (o ∷ os) s.levels)

first_queue :
    (s : BookSide) (price : ℕ) (ps : List ℕ) (queue : List Order) {behind : List Order}
    → s.prices ≡ price ∷ ps
    → level s price ≡ queue
    → Sublist (queues_at s ps) behind
    → Sublist (side_orders s) (queue ++ behind)
first_queue s price ps queue {behind} e l kept =
    subst (λ qs. Sublist (queues_at s qs) (queue ++ behind)) (sym e)
      (subst (λ q. Sublist (q ++ queues_at s ps) (queue ++ behind)) (sym l)
        (Sublist-append (Sublist-refl queue) kept))

-- Without its first order a side has the rest of that order's queue, and the queues behind it.
put_queue-side_orders :
    (s : BookSide) (price : ℕ) (ps : List ℕ) (m : Order) (rest : List Order)
    → s.prices ≡ price ∷ ps
    → level s price ≡ m ∷ rest
    → Sublist (side_orders (put_queue s price rest)) (rest ++ queues_at s ps)
unfolding put_queue
put_queue-side_orders s price ps m [] e l =
    let kept = queues_at-Sublist (put_queue s price []) s (put_queue-level s price m [] l) ps in
    rw (put_queue, e, remove_first-same price ps) kept
put_queue-side_orders s price ps m (o ∷ os) e l =
    let kept =
      queues_at-Sublist (put_queue s price (o ∷ os)) s (put_queue-level s price m (o ∷ os) l) ps in
    first_queue (put_queue s price (o ∷ os)) price ps (o ∷ os) e (put_queue-here s price o os) kept

-- A price whose queue is empty has no orders to lose.
remove_first-queues_at :
    (s : BookSide) (price : ℕ) (ps : List ℕ)
    → Sublist (queues_at s (remove_first price ps)) (queues_at s ps)
unfolding remove_first
remove_first-queues_at s price [] = Sublist.nil
remove_first-queues_at s price (p ∷ ps) = elim (Bool-cases (p == price)) [
  | inl e ↦ rw (remove_first, e) (Sublist-drop_left (level s p) (Sublist-refl (queues_at s ps)))
  | inr e ↦
      rw (remove_first, e)
        (Sublist-append {ys = level s p} (Sublist-refl (level s p))
          (remove_first-queues_at s price ps))
]

best_price-prices :
    (s : BookSide) (price : ℕ) → best_price s ≡ some price → (ps : List ℕ) × (s.prices ≡ price ∷ ps)
best_price-prices s price h = elim (List-cases s.prices) [
  | inl e ↦ cc (rw e at h)
  | inr (p, ps, e) ↦ (ps, e ∙ ap (λ q. q ∷ ps) (some-inj (rw e at h)))
]

module _ (b : MarketBook) (side : Side) (price : ℕ) where
  abbrev standing : List Order
  standing = side_orders (get_side b side)

  -- A price is taken from the side.
  pub remove_price-standing :
      Sublist
        (side_orders (get_side (set_side b side (remove_price (get_side b side) price)) side))
        standing
  remove_price-standing =
      rw (get_side-set_side b side (remove_price (get_side b side) price))
        (remove_first-queues_at (get_side b side) price (get_side b side).prices)

  module _ (m : Order) (rest : List Order) (best : best_price (get_side b side) ≡ some price)
      (first : level (get_side b side) price ≡ m ∷ rest) where
    -- The first order at the best price is the first of the side.
    pub first_standing :
        {os : List Order}
        → Sublist os (side_orders (get_side (remove_at b side price 0).0 side))
        → Sublist (m ∷ os) standing
    first_standing {os} k =
        let (ps, e) = best_price-prices (get_side b side) price best in
        let left = put_queue-side_orders (get_side b side) price ps m rest e first in
        let k' =
          subst (λ x. Sublist os (side_orders x)) (remove_at-side b side price m rest first) k in
        let whole : Sublist (m ∷ os) (m ∷ (rest ++ queues_at (get_side b side) ps)) =
          Sublist.keep m (Sublist-trans left k') in
        subst (λ qs. Sublist (m ∷ os) (queues_at (get_side b side) qs)) (sym e)
          (subst (λ q. Sublist (m ∷ os) (q ++ queues_at (get_side b side) ps)) (sym first) whole)

    -- What stands behind the first order of the side.
    pub later_standing : Sublist (side_orders (get_side (remove_at b side price 0).0 side)) standing
    later_standing =
        Sublist-trans (first_standing (Sublist-refl _)) (Sublist.leave m (Sublist-refl _))
