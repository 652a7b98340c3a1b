-- ===== src/Book/Ranked/Sides.antt =====
-- The changes that book.go makes to one side keep it in order.
use crosschainswap.Prelude.{
  ℕ, zero, suc, true, false, ◌≡◌, ◌≢◌, List, [], ◌∷◌, none, some, ◌==◌, ◌∙◌, ap, sym, All,
  All-insert_at, All-remove_nth, insert_at, remove_nth, arith, Bool-cases, Option-cases, List-cases,
  inl, inr, refl, get_elem?, length,
}
use mathlib.Core.Path.{subst₂}
use crosschainswap.Prelude.Search.{sort_search}
use crosschainswap.Prelude.Dict.{Dict, lookup, insert, erase, lookup-insert, lookup-erase}
use crosschainswap.Order.{Side, Order}
use crosschainswap.Book.{BookSide}
use crosschainswap.Book.Sides.{worse_at, level, put_queue, insert_price}
use crosschainswap.Book.Resting.{with_price}
use crosschainswap.Book.Ranked.{RestsAt, IsRanked, contains, has_queue}
use crosschainswap.Book.Ranked.Prices.{
  contains-insert_at, contains-remove_first, remove_first-IsSorted, insert_price-IsSorted,
}

insert_at-nonempty : (q : List Order) (i : ℕ) (o : Order) → insert_at q i o ≢ []
insert_at-nonempty q zero o h = cc
insert_at-nonempty [] (suc i) o h = cc
insert_at-nonempty (x ∷ q) (suc i) o h = cc

-- What holds of each queue, when one is written or deleted.
each-insert :
    (P : ℕ → List Order → Type 0) (p : ℕ) (q : List Order) (d : Dict (List Order))
    → P p q
    → ((j : ℕ) (x : List Order) → lookup j d ≡ some x → P j x)
    → (j : ℕ) (x : List Order) → lookup j (insert p q d) ≡ some x
    → P j x
each-insert P p q d h all j x e = elim (Bool-cases (p == j)) [
  | inr n ↦ all j x (sym (rw n at (lookup-insert p j q d)) ∙ e)
  | inl y ↦
      let same : q ≡ x = ground (arith, lookup-insert p j q d, e, y) in
      let k : p ≡ j = ground arith in subst₂ P k same h
]

each-erase :
    (P : ℕ → List Order → Type 0) (p : ℕ) (d : Dict (List Order))
    → ((j : ℕ) (x : List Order) → lookup j d ≡ some x → P j x)
    → (j : ℕ) (x : List Order) → lookup j (erase p d) ≡ some x
    → P j x
each-erase P p d all j x e = elim (Bool-cases (p == j)) [
  | inr n ↦ all j x (sym (rw n at (lookup-erase p j d)) ∙ e)
  | inl y ↦ absurd (ground (arith, lookup-erase p j d, e, y))
]

abbrev Good : Side → ℕ → List Order → Type 0
Good side p q = (q ≢ []) × All (RestsAt side p) q

-- A queue that changes at a price that is there.
pub new_queue-IsRanked :
    (side : Side) (s : BookSide) (p : ℕ) (q : List Order)
    → IsRanked side s
    → contains p s.prices ≡ true
    → q ≢ []
    → All (RestsAt side p) q
    → IsRanked side (record s { levels = insert p q s.levels })
new_queue-IsRanked side s p q r c n a = record {
  side_eq = r.side_eq;
  sorted = r.sorted;
  listed = λ j. ground (arith, r.listed j, lookup-insert p j q s.levels, c);
  queues = each-insert (Good side) p q s.levels (n, a) r.queues;
}

with_price-new :
    (s : BookSide) (p : ℕ) → lookup p s.levels ≡ none → with_price s p ≡ insert_price s p
with_price-new s p e = rw (with_price, e) refl

with_price-known :
    (s : BookSide) (p : ℕ) (q : List Order) → lookup p s.levels ≡ some q → with_price s p ≡ s
with_price-known s p q e = rw (with_price, e) refl

pub with_price-levels : (s : BookSide) (p : ℕ) → (with_price s p).levels ≡ s.levels
unfolding insert_price
with_price-levels s p = elim (Option-cases (lookup p s.levels)) [
  | inl e ↦ rw (with_price, e) refl
  | inr (q, e) ↦ rw (with_price, e) refl
]

-- An order that enters a queue.
pub add_order-IsRanked :
    (side : Side) (s : BookSide) (p i : ℕ) (o : Order)
    → IsRanked side s
    → RestsAt side p o
    → IsRanked side
        (record (with_price s p) { levels = insert p (insert_at (level s p) i o) s.levels })
unfolding insert_price
add_order-IsRanked side s p i o r h = elim (Option-cases (lookup p s.levels)) [
  | inr (q, e) ↦
      rw (with_price-known s p q e, e)
        (new_queue-IsRanked side s p (insert_at q i o) r (r.listed p ∙ ap has_queue e)
          (insert_at-nonempty q i o) (All-insert_at (RestsAt side p) o q i h (r.queues p q e).1))
  | inl e ↦
      let absent : contains p s.prices ≡ false = r.listed p ∙ ap has_queue e in
      rw (with_price-new s p e, e)
        (record {
          side_eq = r.side_eq;
          sorted = insert_price-IsSorted side s p r.side_eq r.sorted absent;
          listed = λ j. ground (
            arith,
            r.listed j,
            lookup-insert p j (insert_at [] i o) s.levels,
            contains-insert_at j p s.prices
                (sort_search (length s.prices) (worse_at s.side s.prices p)),
          );
          queues =
              each-insert (Good side) p (insert_at [] i o) s.levels
                (insert_at-nonempty [] i o, All-insert_at (RestsAt side p) o [] i h tt) r.queues;
        })
]

pub queue-is_there :
    (side : Side) (s : BookSide) (p i : ℕ) (o : Order)
    → IsRanked side s
    → get_elem? (level s p) i ≡ some o
    → (contains p s.prices ≡ true) × All (RestsAt side p) (level s p)
queue-is_there side s p i o r h = elim (Option-cases (lookup p s.levels)) [
  | inr (q, e) ↦ (r.listed p ∙ ap has_queue e, rw e (r.queues p q e).1)
  | inl e ↦ cc (rw e at h)
]

-- A queue that an order has left.
pub put_queue-IsRanked :
    (side : Side) (s : BookSide) (p i : ℕ) (o : Order)
    → IsRanked side s
    → get_elem? (level s p) i ≡ some o
    → IsRanked side (put_queue s p (remove_nth (level s p) i))
unfolding put_queue
put_queue-IsRanked side s p i o r h =
    let (c, a) = queue-is_there side s p i o r h in
    let a' = All-remove_nth (RestsAt side p) (level s p) i a in
    elim (List-cases (remove_nth (level s p) i)) [
      | inl e ↦ rw e (record {
        side_eq = r.side_eq;
        sorted = remove_first-IsSorted side p s.prices r.sorted;
        listed = λ j. ground (
          arith,
          r.listed j,
          lookup-erase p j s.levels,
          contains-remove_first side j p s.prices r.sorted,
        );
        queues = each-erase (Good side) p s.levels r.queues;
      })
      | inr (x, xs, e) ↦ rw e (new_queue-IsRanked side s p (x ∷ xs) r c (λ z. cc z) (rw e at a'))
    ]
