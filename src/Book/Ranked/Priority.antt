-- ===== src/Book/Ranked/Priority.antt =====
-- What the order of a book gives: `Apply` keeps it, and the best price comes first.
use crosschainswap.Prelude.{
  some-inj, ℕ, true, ◌≡◌, ◌⊎◌, List, [], ◌∷◌, some, ◌==◌, All, arith, Bool-cases, Result-cases, inl,
  inr, subst, sym, refl, ◌∙◌, get_elem?, All-get_elem?,
}
use crosschainswap.Decimal.{is_positive}
use crosschainswap.Order.{Side, Order}
use crosschainswap.Engine.{MatchResult, Outcome}
use crosschainswap.Book.{
  BookSide, MarketBook, get_side, opposite_side, normalize_order, is_immediate_only,
}
use crosschainswap.Book.Sides.{level, best_price, head?}
use crosschainswap.Book.Resting.{insert_resting}
use crosschainswap.Book.Apply.{
  BookEnd, apply, rounds, end_apply, finish_apply, validate_apply, rested,
}
use crosschainswap.Book.Apply.Correct.{accepted, begin, apply_valid-ends}
use crosschainswap.Book.Ranked.{RestsAt, IsRanked, IsRankedBook, IsSorted, better, contains}
use crosschainswap.Book.Ranked.Sides.{queue-is_there}
use crosschainswap.Book.Ranked.Book.{insert_resting-IsRanked}
use crosschainswap.Book.Ranked.Loop.{book_of, book_loop-IsRanked}

rested-IsRanked :
    (b : MarketBook) (r : MatchResult) (t : Order)
    → IsRankedBook b
    → IsRankedBook (rested b r (insert_resting b t)).0
rested-IsRanked b r t k = elim (Result-cases (insert_resting b t)) [
  | inl (b', e) ↦ rw e (insert_resting-IsRanked b t k e)
  | inr (x, e) ↦ rw e k
]

finish_apply-IsRanked :
    (now : ℕ) (b : MarketBook) (r : MatchResult)
    → IsRankedBook b
    → IsRankedBook (finish_apply now b r).0
unfolding finish_apply
finish_apply-IsRanked now b r k = elim (Bool-cases (is_positive r.taker.remaining_quantity)) [
  | inr a ↦ rw (finish_apply, a) k
  | inl a ↦ elim (Bool-cases (is_immediate_only r.taker)) [
    | inl i ↦ rw (finish_apply, a, i) k
    | inr i ↦ rw (finish_apply, a, i) (rested-IsRanked b _ _ k)
  ]
]

end_apply-IsRanked :
    (now : ℕ) (x : BookEnd) → IsRankedBook (book_of x) → IsRankedBook (end_apply now x).0
end_apply-IsRanked now (BookEnd.stopped b r) k = finish_apply-IsRanked now b r k
end_apply-IsRanked now (BookEnd.returned b r) k = k
end_apply-IsRanked now (BookEnd.failed b e) k = k

-- `Apply` keeps the book in order, whether it succeeds or fails.
pub apply-IsRanked :
    (new_trade_id : ℕ → ℕ) (now : ℕ) (b : MarketBook) (taker : Order) {b' : MarketBook}
    {o : Outcome MatchResult}
    → IsRankedBook b
    → apply new_trade_id now b taker ≡ some (b', o)
    → IsRankedBook b'
unfolding apply
apply-IsRanked new_trade_id now b taker k h =
    elim (Result-cases (validate_apply b (normalize_order b taker))) [
      | inr (e, v) ↦ subst (λ p. IsRankedBook p.0) (some-inj (rw (apply, v) at h)) k
      | inl (u, v) ↦
          let (x, e, z) = apply_valid-ends new_trade_id now b taker in
          subst (λ p. IsRankedBook p.0) (some-inj (sym z ∙ rw (apply, v) at h))
            (end_apply-IsRanked now x (
              book_loop-IsRanked new_trade_id now (opposite_side (accepted b taker).side)
                (rounds (get_side b (opposite_side (accepted b taker).side))) b
                (begin (accepted b taker)) x k e))
    ]

All-contains : (P : ℕ → Type 0) (q : ℕ) (ps : List ℕ) → All P ps → contains q ps ≡ true → P q
All-contains P q [] a c = cc
All-contains P q (x ∷ ps) a c = elim (Bool-cases (x == q)) [
  | inl e ↦ subst P (ground arith) a.0
  | inr e ↦ All-contains P q ps a.1 (ground arith)
]

first_in :
    (side : Side) (ps : List ℕ) (q n : ℕ)
    → IsSorted side ps
    → contains q ps ≡ true
    → n ≡ q
    → (p : ℕ) × (head? ps ≡ some p) × ((n ≡ p) ⊎ (better side p n ≡ true))
first_in side [] q n s c e = cc
first_in side (x ∷ ps) q n s c e = (
  x,
  refl,
  elim (Bool-cases (x == q)) [
    | inl y ↦ inl (ground arith)
    | inr y ↦
        let b = All-contains (λ z. better side x z ≡ true) q ps s.0 (ground arith) in inr (rw e b)
  ],
)

-- The best price comes first: an order that rests on a side in order, wherever its queue is, has the
-- side's best price or a worse one.
pub best_price_first :
    (side : Side) (s : BookSide) (q i : ℕ) (o : Order)
    → IsRanked side s
    → get_elem? (level s q) i ≡ some o
    → (p : ℕ) × (best_price s ≡ some p) × ((o.price ≡ p) ⊎ (better side p o.price ≡ true))
best_price_first side s q i o r h =
    let (c, a) = queue-is_there side s q i o r h in
    let at = All-get_elem? (RestsAt side q) (level s q) i a h in
    first_in side s.prices q o.price r.sorted c (at.at_price)
