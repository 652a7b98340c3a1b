-- ===== src/Book/Ranked/Turns.antt =====
-- book.go, `insertResting`: the place of an order in a queue that stands in the turn of its sequences.
use crosschainswap.Prelude.{
  ℕ, zero, suc, ◌≤◌, ◌<◌, ◌≡◌, ◌≢◌, true, false, List, [], ◌∷◌, All, All-insert_at, length,
  insert_at, arith, ◌==◌, Bool-cases, inl, inr,
}
use crosschainswap.Prelude.Search.{IsMonotone, sort_search_least}
use crosschainswap.Order.{Order}
use crosschainswap.Book.Resting.{later_at, insert_index}

-- A queue whose sequences grow from the front to the back.
abbrev pub InTurn : List Order → Type 0
InTurn [] = Unit
InTurn (o ∷ os) = All (λ x. o.sequence_id < x.sequence_id) os × InTurn os

All-later :
    (s t : ℕ) (os : List Order)
    → s < t
    → All (λ x. t < x.sequence_id) os
    → All (λ x. s < x.sequence_id) os
All-later s t [] h a = tt
All-later s t (o ∷ os) h a = (omega (arith, h, a.0), All-later s t os h a.1)

All-later_at :
    (s : ℕ) (os : List Order) (j : ℕ)
    → j < length os
    → All (λ x. s < x.sequence_id) os
    → later_at os s j ≡ true
All-later_at s [] j lt a = absurd (omega (arith, lt))
All-later_at s (o ∷ os) zero lt a = ground (arith, a.0)
All-later_at s (o ∷ os) (suc j) lt a = All-later_at s os j (omega (arith, lt)) a.1

later_at-IsMonotone : (s : ℕ) (os : List Order) → InTurn os → IsMonotone (length os) (later_at os s)
later_at-IsMonotone s [] t i j le lt h = absurd (omega (arith, lt))
later_at-IsMonotone s (o ∷ os) t zero zero le lt h = h
later_at-IsMonotone s (o ∷ os) t zero (suc j) le lt h =
    All-later_at s os j (omega (arith, lt)) (All-later s o.sequence_id os (ground arith) t.0)
later_at-IsMonotone s (o ∷ os) t (suc i) zero le lt h = absurd (omega (arith, le))
later_at-IsMonotone s (o ∷ os) t (suc i) (suc j) le lt h =
    later_at-IsMonotone s os t.1 i j (omega (arith, le)) (omega (arith, lt)) h

insert_at-InTurn :
    (item : Order) (os : List Order) (i : ℕ)
    → InTurn os
    → All (λ x. x.sequence_id ≢ item.sequence_id) os
    → ((k : ℕ) → k < i → later_at os item.sequence_id k ≡ false)
    → ((k : ℕ) → i ≤ k → k < length os → later_at os item.sequence_id k ≡ true)
    → i ≤ length os
    → InTurn (insert_at os i item)
insert_at-InTurn item [] zero t n below above le = (tt, tt)
insert_at-InTurn item [] (suc i) t n below above le = absurd (omega (arith, le))
insert_at-InTurn item (o ∷ os) zero t n below above le =
    let w = above 0 (omega arith) (omega arith) in
    let lt : item.sequence_id < o.sequence_id = ground (arith, w) in
    ((lt, All-later item.sequence_id o.sequence_id os lt t.0), t)
insert_at-InTurn item (o ∷ os) (suc i) t n below above le =
    let w = below 0 (omega arith) in
    let ne = n.0 in
    (
      All-insert_at (λ x. o.sequence_id < x.sequence_id) item os i (ground (arith, w, ne)) t.0,
      insert_at-InTurn item os i t.1 n.1 (λ k h. below (suc k) (omega (arith, h)))
          (λ k h m. above (suc k) (omega (arith, h)) (omega (arith, m))) (omega (arith, le)),
    )

-- An order with a sequence of its own takes its turn: where a queue stands in the turn of its
-- sequences, it does so with the new order at the place that `insertResting` finds for it.
pub insert_index-InTurn :
    (queue : List Order) (item : Order)
    → InTurn queue
    → item.sequence_id ≢ 0
    → All (λ x. x.sequence_id ≢ item.sequence_id) queue
    → InTurn (insert_at queue (insert_index queue item.sequence_id) item)
unfolding insert_index
insert_index-InTurn queue item t n d =
    let (le, below, above) =
      sort_search_least (length queue) (later_at queue item.sequence_id)
        (later_at-IsMonotone item.sequence_id queue t) in
    elim (Bool-cases (item.sequence_id == 0)) [
      | inl e ↦ absurd (n (ground arith))
      | inr e ↦ rw (insert_index, e) (insert_at-InTurn item queue _ t d below above le)
    ]
