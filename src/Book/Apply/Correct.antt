-- ===== src/Book/Apply/Correct.antt =====
-- What `Apply` promises its caller.
use crosschainswap.Prelude.{
  some-inj, ℕ, ◌+◌, ◌≡◌, ◌⊎◌, inl, inr, refl, sym, ap, ◌∙◌, true, false, List, [], Option, some, ok,
  err, arith, Bool, All, not, if◌then◌else◌, Result-cases,
}
use mathlib.Core.Path.{subst₂}
use crosschainswap.Decimal.{val, is_positive}
use crosschainswap.Order.{Status, Order}
use crosschainswap.Engine.{MatchResult, Outcome}
use crosschainswap.Engine.Run.{Run, traded, IsFair}
use crosschainswap.Engine.Conservation.{Run-filled, Run-remaining, Run-Fills}
use crosschainswap.Engine.Fairness.{Run-IsFair}
use crosschainswap.Book.{MarketBook, get_side, normalize_order, opposite_side, is_immediate_only}
use crosschainswap.Book.Resting.{insert_resting}
use crosschainswap.Book.Apply.{
  BookEnd, apply, apply_valid, validate_apply, market_is_ioc, rounds, book_loop, end_apply,
  finish_apply, final_status, with_status, rested,
}
use crosschainswap.Prelude.Sublist.{Sublist}
use crosschainswap.Engine.Limit.{Executed}
use crosschainswap.Book.Apply.Queued.{side_orders}
use crosschainswap.Book.Apply.Trades.{effective_price}
use crosschainswap.Book.Apply.Carried.{result_of, book_loop-Carried}
use crosschainswap.Book.Apply.Terminates.{book_loop-total, live_le}

-- The taker that goes through the book.
abbrev pub accepted : MarketBook → Order → Order
accepted b taker = market_is_ioc (normalize_order b taker)

abbrev pub begin : Order → MatchResult
begin taker = record { taker = taker; makers = []; trades = [] }

module _ (new_trade_id : ℕ → ℕ) (now : ℕ) (b : MarketBook) (taker : Order) where
  abbrev pub AtLoop : BookEnd → Type 0
  AtLoop x =
      book_loop new_trade_id now (rounds (get_side b (opposite_side (accepted b taker).side)))
        (opposite_side (accepted b taker).side) b (begin (accepted b taker))
      ≡ some x

  loop_ends : (x : BookEnd) × AtLoop x
  loop_ends =
      book_loop-total new_trade_id now _ _ b (begin (accepted b taker))
        (omega (arith, live_le (is_positive (accepted b taker).remaining_quantity)))

  pub apply_valid-ends :
      (x : BookEnd) × AtLoop x
      × (apply_valid new_trade_id now b (accepted b taker) ≡ some (end_apply now x))
  unfolding apply_valid
  apply_valid-ends = let (x, e) = loop_ends in (x, e, rw (apply_valid, e) refl)

  -- `Apply` always ends: its loop makes no more rounds than the makers' side has prices and orders,
  -- and two more.
  pub apply-total :
      (b' : MarketBook) × (o : Outcome MatchResult) × (apply new_trade_id now b taker
        ≡ some (b', o))
  unfolding apply
  apply-total =
      let (x, _, e) = apply_valid-ends in
      elim (Result-cases (validate_apply b (normalize_order b taker))) [
        | inl (u, v) ↦ ((end_apply now x).0, (end_apply now x).1, rw (apply, v) e)
        | inr (z, v) ↦ (b, err z, rw (apply, v) refl)
      ]

abbrev if_ok : Outcome MatchResult → MatchResult → MatchResult
if_ok (ok r) d = r
if_ok (err e) d = d

-- Each way to the end of `Apply` that succeeds returns the same result.
same_result :
    (c d : Bool) (b b' : MarketBook) (x r : MatchResult) (o : Outcome MarketBook)
    → (if c then (b, ok x) else if d then (b, ok x) else rested b x o) ≡ (b', ok r)
    → r ≡ x
same_result true d b b' x r o h = ap (λ p. if_ok p.1 r) (sym h)
same_result false true b b' x r o h = ap (λ p. if_ok p.1 r) (sym h)
same_result false false b b' x r (ok q) h = ap (λ p. if_ok p.1 r) (sym h)
same_result false false b b' x r (err e) h = cc

finish_apply-eq :
    (now : ℕ) (b b' : MarketBook) (q r : MatchResult)
    → finish_apply now b q ≡ (b', ok r)
    → r ≡ with_status now q (final_status q)
unfolding finish_apply
finish_apply-eq now b b' q r h =
    same_result (not (is_positive q.taker.remaining_quantity)) (is_immediate_only q.taker) b b' _ r
      (insert_resting b (with_status now q (final_status q)).taker) h

-- A call that succeeds passed its checks.
passed_checks :
    (b b' : MarketBook) (r : MatchResult) (v : Outcome (Unit {0}))
    (o : Option (MarketBook × Outcome MatchResult))
    → elim v as (λ k. Option (MarketBook × Outcome MatchResult)) [
      | err e ↦ some (b, err e)
      | ok _ ↦ o
    ]
      ≡ some (b', ok r)
    → o ≡ some (b', ok r)
passed_checks b b' r (ok _) o h = h
passed_checks b b' r (err e) o h = cc

end_apply-cases :
    (now : ℕ) (b' : MarketBook) (r : MatchResult) (x : BookEnd)
    → end_apply now x ≡ (b', ok r)
    → (q : MatchResult) × (result_of x ≡ some q)
      × ((r ≡ q) ⊎ (r ≡ with_status now q (final_status q)))
end_apply-cases now b' r (BookEnd.stopped b q) h = (q, refl, inr (finish_apply-eq now b b' q r h))
end_apply-cases now b' r (BookEnd.returned b q) h = (q, refl, inl (ap (λ p. if_ok p.1 r) (sym h)))
end_apply-cases now b' r (BookEnd.failed b e) h = cc

-- The code behind the loop changes the taker's status and time alone.
record Kept (q r : MatchResult) : Type 0 where
  makers_eq : r.makers ≡ q.makers
  trades_eq : r.trades ≡ q.trades
  filled_eq : r.taker.filled_quantity ≡ q.taker.filled_quantity
  remaining_eq : r.taker.remaining_quantity ≡ q.taker.remaining_quantity

end-Kept :
    (now : ℕ) (s : Status) (q r : MatchResult) → (r ≡ q) ⊎ (r ≡ with_status now q s) → Kept q r
end-Kept now s q r (inl e) = record {
  makers_eq = ap (λ x. x.makers) e;
  trades_eq = ap (λ x. x.trades) e;
  filled_eq = ap (λ x. x.taker.filled_quantity) e;
  remaining_eq = ap (λ x. x.taker.remaining_quantity) e;
}
end-Kept now s q r (inr e) = record {
  makers_eq = ap (λ x. x.makers) e;
  trades_eq = ap (λ x. x.trades) e;
  filled_eq = ap (λ x. x.taker.filled_quantity) e;
  remaining_eq = ap (λ x. x.taker.remaining_quantity) e;
}

module _ (new_trade_id : ℕ → ℕ) (now : ℕ) (b : MarketBook) (taker : Order) {b' : MarketBook}
    {r : MatchResult} (applied : apply new_trade_id now b taker ≡ some (b', ok r)) where
  record ApplyRun : Type 0 where
    originals : List Order
    standing : Sublist originals (side_orders (get_side b (opposite_side (accepted b taker).side)))
    last : Order
    run :
        Run new_trade_id now
          (effective_price (accepted b taker))
          0
          (accepted b taker)
          originals
          r.makers
          r.trades
          last
    filled_eq : r.taker.filled_quantity ≡ last.filled_quantity
    remaining_eq : r.taker.remaining_quantity ≡ last.remaining_quantity

  apply_run : ApplyRun
  unfolding apply
  apply_run =
      let (x, e, v) = apply_valid-ends new_trade_id now b taker in
      let w : end_apply now x ≡ (b', ok r) =
        some-inj
          (sym v ∙ passed_checks b b' r (validate_apply b (normalize_order b taker)) _ applied) in
      let (q, z, s) = end_apply-cases now b' r x w in
      let l = book_loop-Carried new_trade_id now _ _ b (begin (accepted b taker)) q x e z in
      let os = l.originals in
      let c = l.carried in
      let k = end-Kept now (final_status q) q r s in
      record {
        originals = os;
        standing = l.standing;
        last = q.taker;
        run =
            subst₂
              (λ ms ts.
                Run new_trade_id now (effective_price (accepted b taker)) 0 (accepted b taker) os ms
                  ts q.taker)
              (sym (k.makers_eq ∙ c.makers_eq)) (sym (k.trades_eq ∙ c.trades_eq)) c.run;
        filled_eq = k.filled_eq;
        remaining_eq = k.remaining_eq;
      }

  executed :
      Executed (side_orders (get_side b (opposite_side (accepted b taker).side))) r.makers r.trades
  executed = let k = apply_run in (k.originals, k.standing, Run-Fills (k.run))

  -- A successful `Apply` conserves quantities: the taker, with the defaults of the book, is filled by what the
  -- trades add up to and keeps the rest, and the makers that come back are, in their order, orders
  -- that stood at the prices of the other side, each filled by the quantity of the trade at its place
  -- and with that much less remaining.
  pub apply_conserves :
      (val r.taker.filled_quantity ≡ val (accepted b taker).filled_quantity + traded r.trades)
      × (val r.taker.remaining_quantity + traded r.trades
          ≡ val (accepted b taker).remaining_quantity)
      × Executed
          (side_orders (get_side b (opposite_side (accepted b taker).side)))
          r.makers
          r.trades
  apply_conserves =
      let k = apply_run in
      (
        ap val (k.filled_eq) ∙ Run-filled (k.run),
        rw (k.remaining_eq) (Run-remaining (k.run)),
        executed,
      )

  -- Every trade of a successful `Apply` is within the taker's limit, of a positive quantity and quote, and with
  -- another user where the taker names one; and it is made with an order that stood at the prices of
  -- the other side, at the price of that order. The limit of a market order that sells with no price
  -- is the least positive price.
  pub apply-IsFair :
      All (IsFair (effective_price (accepted b taker)) (accepted b taker)) r.trades
      × Executed
          (side_orders (get_side b (opposite_side (accepted b taker).side)))
          r.makers
          r.trades
  apply-IsFair = let k = apply_run in (Run-IsFair (k.run), executed)
