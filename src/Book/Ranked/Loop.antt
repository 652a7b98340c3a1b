-- ===== src/Book/Ranked/Loop.antt =====
-- `Apply` keeps the book in order, also where it fails, and takes the best price first.
use crosschainswap.Prelude.{
  some-inj, ℕ, zero, suc, true, false, ◌≡◌, ◌≢◌, List, [], ◌∷◌, some, All, arith, Bool-cases,
  Option-cases, inl, inr, subst, ap, sym, refl, ◌∙◌,
}
use crosschainswap.Prelude.Dict.{lookup}
use crosschainswap.Decimal.{is_positive}
use crosschainswap.Order.{Side, Order}
use crosschainswap.Engine.{MatchResult, filled_by, status_for_remaining}
use crosschainswap.Engine.Run.{match_qty}
use crosschainswap.Book.{BookSide, MarketBook, get_side, is_bookable}
use crosschainswap.Book.Sides.{level, or_empty, head?, best_price}
use crosschainswap.Book.Apply.{BookRound, BookEnd, proceed, book_loop, keep_maker, is_filled}
use crosschainswap.Book.Apply.Trades.{Visited, book_round-Visited}
use crosschainswap.Book.Ranked.{RestsAt, IsRanked, IsRankedBook, contains}
use crosschainswap.Book.Ranked.Sides.{new_queue-IsRanked, queue-is_there}
use crosschainswap.Book.Ranked.Book.{
  which, get_side-IsRanked, set_side-IsRanked, remove_at-IsRanked,
}

abbrev pub book_of : BookEnd → MarketBook
book_of (BookEnd.stopped b _) = b
book_of (BookEnd.returned b _) = b
book_of (BookEnd.failed b _) = b

best_price-contains : (p : ℕ) (ps : List ℕ) → head? ps ≡ some p → contains p ps ≡ true
best_price-contains p [] h = cc
best_price-contains p (x ∷ ps) h = ground arith

-- A listed price has a queue that is not empty.
no_empty_queue :
    (side : Side) (s : BookSide) (p : ℕ) → IsRanked side s → best_price s ≡ some p → level s p ≢ []
no_empty_queue side s p r e l =
    let c = best_price-contains p s.prices e in
    elim (Option-cases (lookup p s.levels)) [
      | inl n ↦ absurd (ground (arith, r.listed p, c, n))
      | inr (q, f) ↦ (r.queues p q f).0 (sym (ap or_empty f) ∙ l)
    ]

-- A maker that is not used up can stay.
filled_by-RestsAt :
    (now : ℕ) (t m : Order) (side : Side) (p : ℕ)
    → RestsAt side p m
    → is_filled (filled_by now m (match_qty t m)).status ≡ false
    → RestsAt side p (filled_by now m (match_qty t m))
unfolding filled_by status_for_remaining is_bookable
filled_by-RestsAt now t m side p r f = record {
  at_price = r.at_price;
  on_side = r.on_side;
  bookable = ground (arith, f, r.bookable);
}

module _ (new_trade_id : ℕ → ℕ) (now : ℕ) (side : Side) where
  keep_maker-IsRanked :
      (b : MarketBook) (r : MatchResult) (price : ℕ) (m : Order) (rest : List Order)
      → IsRankedBook b
      → level (get_side b side) price ≡ m ∷ rest
      → IsRankedBook
          (keep_maker new_trade_id now b side price (filled_by now m (match_qty r.taker m)))
  unfolding keep_maker
  keep_maker-IsRanked b r price m rest k l =
      let m' = filled_by now m (match_qty r.taker m) in
      let s = get_side b side in
      let ranked = get_side-IsRanked b side k in
      let (c, a) = queue-is_there (which side) s price 0 m ranked (rw l refl) in
      elim (Bool-cases (is_filled (m').status)) [
        | inl f ↦ rw (keep_maker, f) (remove_at-IsRanked b side price 0 k)
        | inr f ↦
            let rests : All (RestsAt (which side) price) (m ∷ rest) = rw l at a in
            rw (keep_maker, f, l)
              (set_side-IsRanked b side _ k (
                new_queue-IsRanked (which side) s price (m' ∷ rest) ranked c (λ z. cc z)
                  (filled_by-RestsAt now r.taker m (which side) price rests.0 f, rests.1)))
      ]

  proceed-IsRanked :
      (fuel : ℕ) (b : MarketBook) (r : MatchResult) (x : BookEnd)
      → IsRankedBook b
      → ((b' : MarketBook) (q : MatchResult)
          → IsRankedBook b'
          → book_loop new_trade_id now fuel side b' q ≡ some x
          → IsRankedBook (book_of x))
      → (v : BookRound) → Visited new_trade_id now b r side v
      → proceed v (book_loop new_trade_id now fuel side) ≡ some x
      → IsRankedBook (book_of x)
  proceed-IsRanked fuel b r x k ih _ (Visited.no_price _) e =
      subst (λ y. IsRankedBook (book_of y)) (some-inj e) k
  proceed-IsRanked fuel b r x k ih _ (Visited.out_of_reach _ _ _ _ _ _) e =
      subst (λ y. IsRankedBook (book_of y)) (some-inj e) k
  proceed-IsRanked fuel b r x k ih _ Visited.own e =
      subst (λ y. IsRankedBook (book_of y)) (some-inj e) k
  proceed-IsRanked fuel b r x k ih _ (Visited.no_queue p e₁ l) e =
      absurd (no_empty_queue (which side) (get_side b side) p (get_side-IsRanked b side k) e₁ l)
  proceed-IsRanked fuel b r x k ih _ (Visited.dropped p m rest _ _) e =
      ih _ r (remove_at-IsRanked b side p 0 k) e
  proceed-IsRanked fuel b r x k ih _ Visited.too_small e =
      subst (λ y. IsRankedBook (book_of y)) (some-inj e) k
  proceed-IsRanked fuel b r x k ih _ (Visited.fills p m rest _ l _ _) e =
      ih _ _ (keep_maker-IsRanked b r p m rest k l) e

  pub book_loop-IsRanked :
      (fuel : ℕ) (b : MarketBook) (r : MatchResult) (x : BookEnd)
      → IsRankedBook b
      → book_loop new_trade_id now fuel side b r ≡ some x
      → IsRankedBook (book_of x)
  unfolding book_loop
  book_loop-IsRanked zero b r x k e = cc
  book_loop-IsRanked (suc fuel) b r x k e =
      elim (Bool-cases (is_positive r.taker.remaining_quantity)) [
        | inr a ↦ subst (λ y. IsRankedBook (book_of y)) (some-inj (rw a at e)) k
        | inl a ↦
            proceed-IsRanked fuel b r x k (λ b' q k' h. book_loop-IsRanked fuel b' q x k' h) _
              (book_round-Visited new_trade_id now b r side a) (rw a at e)
      ]
