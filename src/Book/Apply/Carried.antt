-- ===== src/Book/Apply/Carried.antt =====
-- `Apply` carries out a run with the makers that it meets, as `MatchLimit` does; they are orders of
-- the side that it goes through, in their order.
use crosschainswap.Prelude.{
  ℕ, zero, suc, ◌≡◌, inl, inr, true, false, List, [], ◌∷◌, Option, none, some, Bool-cases, subst,
  refl,
}
use crosschainswap.Prelude.Sublist.{Sublist, Sublist-nil, Sublist-trans}
use crosschainswap.Decimal.{is_positive}
use crosschainswap.Order.{Side, Order}
use crosschainswap.Engine.{MatchResult, fill, filled_by}
use crosschainswap.Engine.Run.{match_qty, match_quote}
use crosschainswap.Engine.Carried.{Carried, Carried-stop, Carried-expire, Carried-fill}
use crosschainswap.Book.{MarketBook, get_side}
use crosschainswap.Book.Sides.{level, best_price, remove_at}
use crosschainswap.Book.Apply.Queued.{
  side_orders, remove_price-standing, first_standing, later_standing,
}
use crosschainswap.Book.Apply.{is_filled, BookRound, BookEnd, proceed, keep_maker, book_loop}
use crosschainswap.Book.Apply.Trades.{
  effective_price, Visited, no_price, out_of_reach, own, no_queue, dropped, too_small, fills,
  book_round-Visited, kept-uses_up,
}

keep_maker-used_up :
    (new_trade_id : ℕ → ℕ) (now : ℕ) (b : MarketBook) (side : Side) (price : ℕ) (m : Order)
    → is_filled m.status ≡ true
    → keep_maker new_trade_id now b side price m ≡ (remove_at b side price 0).0
unfolding keep_maker
keep_maker-used_up new_trade_id now b side price m f = rw (keep_maker, f) refl

-- The result that an end of the loop carries.
abbrev pub result_of : BookEnd → Option MatchResult
result_of (BookEnd.stopped _ r) = some r
result_of (BookEnd.returned _ r) = some r
result_of (BookEnd.failed _ _) = none

module _ (new_trade_id : ℕ → ℕ) (now : ℕ) (side : Side) where
  -- The loop carries out a run with some of the orders of the side, in their order, and with none
  -- for a taker that has nothing left.
  pub record LoopCarried (b : MarketBook) (r r' : MatchResult) : Type 0 where
    pub originals : List Order
    pub carried : Carried new_trade_id now (effective_price r.taker) r originals r'
    pub standing : Sublist originals (side_orders (get_side b side))
    pub idle : is_positive r.taker.remaining_quantity ≡ false → originals ≡ []

  LoopCarried-none :
      {b : MarketBook} {r r' : MatchResult}
      → Carried new_trade_id now (effective_price r.taker) r [] r'
      → LoopCarried b r r'
  LoopCarried-none c = record {
    originals = [];
    carried = c;
    standing = Sublist-nil _;
    idle = λ h. refl;
  }

  LoopCarried-later :
      {b b' : MarketBook} {r r' : MatchResult}
      → Sublist (side_orders (get_side b' side)) (side_orders (get_side b side))
      → LoopCarried b' r r'
      → LoopCarried b r r'
  LoopCarried-later h k = record {
    originals = k.originals;
    carried = k.carried;
    standing = Sublist-trans h k.standing;
    idle = k.idle;
  }

  -- The maker of a trade is the first of the side; the later ones stand behind it, if there are any.
  fill-standing :
      (b : MarketBook) (r r' : MatchResult) (price : ℕ) (m : Order) (rest : List Order)
      → best_price (get_side b side) ≡ some price
      → level (get_side b side) price ≡ m ∷ rest
      → (k : LoopCarried
          (keep_maker new_trade_id now b side price (filled_by now m (match_qty r.taker m)))
          (fill new_trade_id now r m (match_qty r.taker m) (match_quote r.taker m))
          r')
      → Sublist (m ∷ k.originals) (side_orders (get_side b side))
  unfolding fill
  fill-standing b r r' price m rest e l k =
      elim (Bool-cases (is_filled (filled_by now m (match_qty r.taker m)).status)) [
        | inl f ↦ first_standing b side price m rest e l (
            subst (λ x. Sublist k.originals (side_orders (get_side x side)))
              (keep_maker-used_up new_trade_id now b side price _ f) k.standing)
        | inr f ↦
            rw (k.idle (kept-uses_up now r.taker m f))
              (first_standing b side price m rest e l (Sublist-nil _))
      ]

  proceed-Carried :
      (fuel : ℕ) (b : MarketBook) (r r' : MatchResult) (x : BookEnd)
      → is_positive r.taker.remaining_quantity ≡ true
      → ((b' : MarketBook) (q : MatchResult)
          → book_loop new_trade_id now fuel side b' q ≡ some x
          → LoopCarried b' q r')
      → (v : BookRound) → Visited new_trade_id now b r side v
      → proceed v (book_loop new_trade_id now fuel side) ≡ some x
      → result_of x ≡ some r'
      → LoopCarried b r r'
  unfolding fill filled_by
  proceed-Carried fuel b r r' x a ih _ (no_price _) e h =
      LoopCarried-none (subst (Carried _ _ _ r []) (cc) (Carried-stop _ _ _ r))
  proceed-Carried fuel b r r' x a ih _ (out_of_reach _ _ _ _ _ _) e h =
      LoopCarried-none (subst (Carried _ _ _ r []) (cc) (Carried-stop _ _ _ r))
  proceed-Carried fuel b r r' x a ih _ own e h =
      LoopCarried-none (subst (Carried _ _ _ r []) (cc) (Carried-expire _ _ _ r a))
  proceed-Carried fuel b r r' x a ih _ (no_queue price _ _) e h =
      LoopCarried-later (remove_price-standing b side price) (ih _ r e)
  proceed-Carried fuel b r r' x a ih _ (dropped price m rest p l) e h =
      LoopCarried-later (later_standing b side price m rest p l) (ih _ r e)
  proceed-Carried fuel b r r' x a ih _ too_small e h = cc
  proceed-Carried fuel b r r' x a ih _ (fills price m rest p l y d) e h =
      let k = ih _ _ e in
      record {
        originals = m ∷ k.originals;
        carried = Carried-fill _ _ _ r m k.originals r' a y d k.carried;
        standing = fill-standing b r r' price m rest p l k;
        idle = λ z. cc;
      }

  -- A loop that ends without an error carried out a run.
  pub book_loop-Carried :
      (fuel : ℕ) (b : MarketBook) (r r' : MatchResult) (x : BookEnd)
      → book_loop new_trade_id now fuel side b r ≡ some x
      → result_of x ≡ some r'
      → LoopCarried b r r'
  unfolding book_loop
  book_loop-Carried zero b r r' x e h = cc
  book_loop-Carried (suc fuel) b r r' x e h =
      elim (Bool-cases (is_positive r.taker.remaining_quantity)) [
        | inr a ↦ LoopCarried-none (subst (Carried _ _ _ r []) (cc) (Carried-stop _ _ _ r))
        | inl a ↦
            proceed-Carried fuel b r r' x a (λ b' q k. book_loop-Carried fuel b' q r' x k h) _
              (book_round-Visited new_trade_id now b r side a) (rw a at e) h
      ]
