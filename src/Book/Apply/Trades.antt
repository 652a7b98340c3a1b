-- ===== src/Book/Apply/Trades.antt =====
-- A round of the loop of `Apply`: its outcomes, each with what led to it.
use crosschainswap.Prelude.{
  ◌||◌, ◌!=◌, ℕ, ◌≡◌, inl, inr, true, false, not, ◌&&◌, List, [], ◌∷◌, none, some, leb, arith,
  if◌then◌else◌, Bool-cases, Option-cases, List-cases,
}
use crosschainswap.Decimal.{is_positive, min}
use crosschainswap.Decimal.Laws.{min-pos}
use crosschainswap.Order.{Side, Order, is_market, is_sell, same_side}
use crosschainswap.Engine.{
  MatchError, MatchResult, eligible_maker, is_self_trade, crosses_price, fill, filled_by,
  expire_taker, status_for_remaining,
}
use crosschainswap.Engine.Run.{priced, match_qty, match_quote, eligible_maker-Eligible}
use crosschainswap.Book.{MarketBook, get_side, set_side, is_bookable}
use crosschainswap.Book.Sides.{level, best_price, remove_price, remove_at}
use crosschainswap.Book.Apply.{
  is_filled, effective_book_taker, BookRound, keep_maker, meet, book_round,
}

-- The limit at which `Apply` matches a taker.
abbrev pub effective_price : Order → ℕ
effective_price t = if is_market t.type && is_sell t.side && leb t.price 0 then 1 else t.price

effective_book_taker-priced : (t : Order) → effective_book_taker t ≡ priced (effective_price t) t
unfolding effective_book_taker
effective_book_taker-priced t =
    elim (Bool-cases (is_market t.type && is_sell t.side && leb t.price 0)) [
      | inl e ↦ rw e
      | inr e ↦ rw e
    ]

module _ (new_trade_id : ℕ → ℕ) (now : ℕ) (b : MarketBook) (r : MatchResult) (side : Side) where
  -- The outcomes of a round, each with what led to it.
  pub data Visited : BookRound → Type 0 where
    no_price : best_price (get_side b side) ≡ none → Visited (BookRound.stop b r)
    -- The best maker is not eligible, and it is not an order that should not be there.
    out_of_reach :
        (price : ℕ) (m : Order) (rest : List Order)
        → best_price (get_side b side) ≡ some price
        → level (get_side b side) price ≡ m ∷ rest
        → eligible_maker (priced (effective_price r.taker) r.taker) m ≡ false
        → Visited (BookRound.stop b r)
    own : Visited (BookRound.finish b (expire_taker now r))
    no_queue :
        (price : ℕ)
        → best_price (get_side b side) ≡ some price
        → level (get_side b side) price ≡ []
        → Visited (BookRound.again (set_side b side (remove_price (get_side b side) price)) r)
    dropped :
        (price : ℕ) (m : Order) (rest : List Order)
        → best_price (get_side b side) ≡ some price
        → level (get_side b side) price ≡ m ∷ rest
        → Visited (BookRound.again (remove_at b side price 0).0 r)
    too_small : Visited (BookRound.fail b MatchError.quote_below_precision)
    fills :
        (price : ℕ) (m : Order) (rest : List Order)
        → best_price (get_side b side) ≡ some price
        → level (get_side b side) price ≡ m ∷ rest
        → eligible_maker (priced (effective_price r.taker) r.taker) m ≡ true
        → is_positive (match_quote r.taker m) ≡ true
        → Visited (
            BookRound.again
              (keep_maker new_trade_id now b side price (filled_by now m (match_qty r.taker m)))
              (fill new_trade_id now r m (match_qty r.taker m) (match_quote r.taker m)))

  meet-Visited :
      (price : ℕ) (m : Order) (rest : List Order)
      → best_price (get_side b side) ≡ some price
      → level (get_side b side) price ≡ m ∷ rest
      → is_positive r.taker.remaining_quantity ≡ true
      → Visited (meet new_trade_id now b r side price m)
  unfolding meet
  meet-Visited price m rest e l a =
      let t = priced (effective_price r.taker) r.taker in
      rw (effective_book_taker-priced r.taker) (elim (Bool-cases (eligible_maker t m)) [
        | inl x ↦
            let y = eligible_maker-Eligible t m x in
            let q : is_positive (match_qty r.taker m) ≡ true =
              ground (arith, min-pos r.taker.remaining_quantity m.remaining_quantity) in
            elim (Bool-cases (is_positive (match_quote r.taker m))) [
              | inl d ↦ rw (x, q, d) (fills price m rest e l x d)
              | inr d ↦ rw (x, q, d) (too_small)
            ]
        | inr x ↦ elim (Bool-cases (is_self_trade t m && crosses_price t m)) [
          | inl c ↦ rw (x, c) own
          | inr c ↦
              elim (Bool-cases (
                not (is_bookable m)
                || m.market != r.taker.market
                || same_side m.side r.taker.side)) [
                  | inl d ↦ rw (x, c, d) (dropped price m rest e l)
                  | inr d ↦ rw (x, c, d) (out_of_reach price m rest e l x)
                ]
        ]
      ])

  pub book_round-Visited :
      is_positive r.taker.remaining_quantity ≡ true → Visited (book_round new_trade_id now b r side)
  unfolding book_round
  book_round-Visited a = elim (Option-cases (best_price (get_side b side))) [
    | inl e ↦ rw (book_round, e) (no_price e)
    | inr (price, e) ↦ elim (List-cases (level (get_side b side) price)) [
      | inl l ↦ rw (book_round, e, l) (no_queue price e l)
      | inr (m, rest, l) ↦ rw (book_round, e, l) (meet-Visited price m rest e l a)
    ]
  ]

-- A maker that is not used up uses up the taker.
pub kept-uses_up :
    (now : ℕ) (t m : Order)
    → is_filled (filled_by now m (match_qty t m)).status ≡ false
    → is_positive (filled_by now t (match_qty t m)).remaining_quantity ≡ false
unfolding filled_by status_for_remaining min
kept-uses_up now t m h = ground arith
