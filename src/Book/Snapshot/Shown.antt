-- ===== src/Book/Snapshot/Shown.antt =====
-- What a snapshot shows of a side is what rests on it.
use crosschainswap.Prelude.{
  ℕ, zero, suc, ◌+◌, ◌≤◌, ◌≡◌, List, [], ◌∷◌, arith, length, refl, Bool-cases, inl, inr,
  if◌then◌else◌, not, ◌||◌, ◌==◌, All, ◌<◌,
}
use crosschainswap.Decimal.{val, is_positive}
use crosschainswap.Order.{Order}
use crosschainswap.Book.{BookSide, is_bookable}
use crosschainswap.Book.Sides.{level}
use crosschainswap.Book.Snapshot.{
  PriceLevel, Summary, no_summary, count_in, summarize, levels_of, snapshot_side,
}

-- What rests in a queue.
abbrev pub resting : List Order → ℕ
resting [] = 0
resting (o ∷ os) = (if is_bookable o then val o.remaining_quantity else 0) + resting os

abbrev pub resting_at : BookSide → List ℕ → ℕ
resting_at s [] = 0
resting_at s (p ∷ ps) = resting (level s p) + resting_at s ps

abbrev pub shown : List PriceLevel → ℕ
shown [] = 0
shown (x ∷ xs) = val x.quantity + shown xs

summarize-quantity :
    (s : Summary) (os : List Order) → (val (summarize s os).quantity ≡ val s.quantity + resting os)
unfolding summarize count_in
summarize-quantity s [] = omega arith
summarize-quantity s (o ∷ os) = elim (Bool-cases (is_bookable o)) [
  | inl e ↦ rw (summarize, e) (omega (arith, summarize-quantity (count_in s o) os))
  | inr e ↦ rw (summarize, e) (omega (arith, summarize-quantity s os))
]

abbrev bookables : List Order → ℕ
bookables [] = 0
bookables (o ∷ os) = if is_bookable o then suc (bookables os) else bookables os

summarize-count : (s : Summary) (os : List Order) → (summarize s os).count ≡ s.count + bookables os
unfolding summarize count_in
summarize-count s [] = omega arith
summarize-count s (o ∷ os) = elim (Bool-cases (is_bookable o)) [
  | inl e ↦ rw (summarize, e) (omega (arith, summarize-count (count_in s o) os))
  | inr e ↦ rw (summarize, e) (summarize-count s os)
]

none-resting : (os : List Order) → bookables os ≡ 0 → resting os ≡ 0
none-resting [] h = refl
none-resting (o ∷ os) h = ground (arith, none-resting os)

levels_of_complete :
    (room market : ℕ) (s : BookSide) (prices : List ℕ)
    → length prices ≤ room
    → (shown (levels_of room market s prices) ≡ resting_at s prices)
      × All (λ x. (0 < val x.quantity) × (0 < x.order_count)) (levels_of room market s prices)
unfolding levels_of
levels_of_complete zero market s [] h = (refl, tt)
levels_of_complete zero market s (p ∷ ps) h = absurd (omega (arith, h))
levels_of_complete (suc room) market s [] h = (refl, tt)
levels_of_complete (suc room) market s (p ∷ ps) h =
    let q = summarize no_summary (level s p) in
    let quantity = summarize-quantity no_summary (level s p) in
    let count = summarize-count no_summary (level s p) in
    elim (Bool-cases ((q).count == 0 || not (is_positive (q).quantity))) [
      | inl e ↦
          let (t, a) = levels_of_complete (suc room) market s ps (omega (arith, h)) in
          rw (levels_of, e) (ground (arith, none-resting (level s p), quantity, count, e, t), a)
      | inr e ↦
          let (t, a) = levels_of_complete room market s ps (omega (arith, h)) in
          rw (levels_of, e)
            (omega (arith, quantity, t), ((ground (arith, e), ground (arith, e)), a))
    ]

-- A snapshot of a whole side shows what rests on it: the quantities of its levels add up to those of
-- the bookable orders in the queues, and no level is empty.
pub snapshot_side_complete :
    (market : ℕ) (s : BookSide)
    → (shown (snapshot_side market s 0) ≡ resting_at s s.prices)
      × All (λ x. (0 < val x.quantity) × (0 < x.order_count)) (snapshot_side market s 0)
unfolding snapshot_side
snapshot_side_complete market s =
    levels_of_complete (length s.prices) market s s.prices (omega arith)
