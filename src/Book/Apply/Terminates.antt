-- ===== src/Book/Apply/Terminates.antt =====
-- The loop of `Apply` ends: a round takes a price or an order from the side, or fills the taker.
use crosschainswap.Prelude.{
  ℕ, zero, suc, ◌+◌, ◌≤◌, ◌<◌, ◌≡◌, inl, inr, refl, Bool, true, false, List, [], ◌∷◌, some, arith,
  Bool-cases, length, ap,
}
use crosschainswap.Prelude.Dict.{Dict, lookup, insert, erase}
use crosschainswap.Decimal.{is_positive}
use crosschainswap.Order.{Side, Order}
use crosschainswap.Engine.{MatchResult, fill, filled_by}
use crosschainswap.Engine.Run.{match_qty, match_quote}
use crosschainswap.Book.{BookSide, MarketBook, get_side}
use crosschainswap.Book.Sides.{
  level, or_empty, remove_first, remove_price, put_queue, remove_at, head?,
}
use crosschainswap.Book.Apply.{
  BookRound, BookEnd, proceed, is_filled, queued, keep_maker, set_head, book_loop,
}
use crosschainswap.Book.Apply.Queued.{get_side-set_side, remove_at-side}
use crosschainswap.Book.Apply.Trades.{Visited, book_round-Visited, kept-uses_up}

queued-insert :
    (k : ℕ) (q : List Order) (d : Dict (List Order))
    → queued (insert k q d) + length (or_empty (lookup k d)) ≡ queued d + length q
unfolding lookup insert
queued-insert k q [] = omega arith
queued-insert k q ((j, w) ∷ d) = ground (arith, queued-insert k q d)

queued-erase :
    (k : ℕ) (d : Dict (List Order)) → queued (erase k d) + length (or_empty (lookup k d)) ≤ queued d
unfolding lookup erase
queued-erase k [] = omega arith
queued-erase k ((j, w) ∷ d) = ground (arith, queued-erase k d)

length-remove_first : (p : ℕ) (ps : List ℕ) → length (remove_first p ps) ≤ length ps
unfolding remove_first
length-remove_first p [] = omega arith
length-remove_first p (x ∷ ps) = ground (arith, length-remove_first p ps)

remove_first-head :
    (p : ℕ) (ps : List ℕ) → head? ps ≡ some p → length (remove_first p ps) < length ps
unfolding remove_first
remove_first-head p [] h = cc
remove_first-head p (x ∷ ps) h = ground arith

-- What the loop uses up of a side.
abbrev pub measure : BookSide → ℕ
measure s = length s.prices + queued s.levels

put_queue-measure :
    (s : BookSide) (price : ℕ) (m : Order) (rest : List Order)
    → level s price ≡ m ∷ rest
    → measure (put_queue s price rest) < measure s
unfolding put_queue
put_queue-measure s price m [] l =
    let e = queued-erase price s.levels in
    omega (arith, length-remove_first price s.prices, (rw l at e))
put_queue-measure s price m (o ∷ os) l =
    let e = queued-insert price (o ∷ os) s.levels in omega (arith, (rw l at e))

remove_at-measure :
    (b : MarketBook) (side : Side) (price : ℕ) (m : Order) (rest : List Order)
    → level (get_side b side) price ≡ m ∷ rest
    → measure (get_side (remove_at b side price 0).0 side) < measure (get_side b side)
remove_at-measure b side price m rest l =
    rw (remove_at-side b side price m rest l) (put_queue-measure (get_side b side) price m rest l)

set_head-measure :
    (s : BookSide) (price : ℕ) (m m' : Order) (rest : List Order)
    → level s price ≡ m ∷ rest
    → measure (record s { levels = insert price (set_head m' (level s price)) s.levels })
      ≡ measure s
set_head-measure s price m m' rest l =
    let e = queued-insert price (m' ∷ rest) s.levels in rw l (omega (arith, (rw l at e)))

-- Whether the loop's test holds, as a number.
abbrev pub live : Bool → ℕ
live true = 1
live false = 0

abbrev pub taker_live : MatchResult → ℕ
taker_live r = live (is_positive r.taker.remaining_quantity)

pub live_le : (x : Bool) → live x ≤ 1
live_le true = omega arith
live_le false = omega arith

module _ (new_trade_id : ℕ → ℕ) (now : ℕ) (side : Side) where
  abbrev pub cost : MarketBook → MatchResult → ℕ
  cost b r = measure (get_side b side) + taker_live r

  -- A trade uses up the maker, who leaves the book, or else the taker.
  fill-cost :
      (b : MarketBook) (r : MatchResult) (price : ℕ) (m : Order) (rest : List Order)
      → is_positive r.taker.remaining_quantity ≡ true
      → level (get_side b side) price ≡ m ∷ rest
      → cost
          (keep_maker new_trade_id now b side price (filled_by now m (match_qty r.taker m)))
          (fill new_trade_id now r m (match_qty r.taker m) (match_quote r.taker m))
        < cost b r
  unfolding keep_maker fill filled_by
  fill-cost b r price m rest a l =
      let q' = filled_by now m (match_qty r.taker m) in
      elim (Bool-cases (is_filled (q').status)) [
        | inl f ↦
            rw (keep_maker, f, a)
              (omega (
                arith,
                remove_at-measure b side price m rest l,
                live_le
                    (is_positive (filled_by now r.taker (match_qty r.taker m)).remaining_quantity),
              ))
        | inr f ↦
            let z : taker_live
                  (fill new_trade_id now r m (match_qty r.taker m) (match_quote r.taker m))
                ≡ 0 =
              ap live (kept-uses_up now r.taker m f) in
            rw (keep_maker, f, a, get_side-set_side b side _)
              (omega (arith, set_head-measure (get_side b side) price m q' rest l, z))
      ]

  proceed-total :
      (fuel : ℕ) (b : MarketBook) (r : MatchResult)
      → is_positive r.taker.remaining_quantity ≡ true
      → cost b r ≤ fuel
      → ((b' : MarketBook) (q : MatchResult)
          → cost b' q < fuel
          → (x : BookEnd) × (book_loop new_trade_id now fuel side b' q ≡ some x))
      → (v : BookRound) → Visited new_trade_id now b r side v
      → (x : BookEnd) × (proceed v (book_loop new_trade_id now fuel side) ≡ some x)
  proceed-total fuel b r a h ih _ (Visited.no_price _) = (_, refl)
  proceed-total fuel b r a h ih _ (Visited.out_of_reach _ _ _ _ _ _) = (_, refl)
  proceed-total fuel b r a h ih _ Visited.own = (_, refl)
  proceed-total fuel b r a h ih _ (Visited.no_queue price e l) = ih _ r (
      rw (get_side-set_side b side (remove_price (get_side b side) price))
        (omega (arith, h, remove_first-head price ((get_side b side).prices) e)))
  proceed-total fuel b r a h ih _ (Visited.dropped price m rest e l) =
      ih _ r (omega (arith, h, remove_at-measure b side price m rest l))
  proceed-total fuel b r a h ih _ Visited.too_small = (_, refl)
  proceed-total fuel b r a h ih _ (Visited.fills price m rest e l y d) =
      ih _ _ (omega (arith, h, fill-cost b r price m rest a l))

  pub book_loop-total :
      (fuel : ℕ) (b : MarketBook) (r : MatchResult)
      → cost b r < fuel
      → (x : BookEnd) × (book_loop new_trade_id now fuel side b r ≡ some x)
  unfolding book_loop
  book_loop-total zero b r h = absurd (omega (arith, h))
  book_loop-total (suc fuel) b r h = elim (Bool-cases (is_positive r.taker.remaining_quantity)) [
    | inr a ↦ (BookEnd.stopped b r, rw (book_loop, a) refl)
    | inl a ↦
        rw (book_loop, a)
          (proceed-total fuel b r a (omega (arith, h)) (λ b' q k. book_loop-total fuel b' q k) _
            (book_round-Visited new_trade_id now b r side a))
  ]
