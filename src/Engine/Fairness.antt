-- ===== src/Engine/Fairness.antt =====
-- In a run every trade is one that the taker asked for.
use crosschainswap.Prelude.{ℕ, List, arith, All, All-map, ltb→lt, refl}
use crosschainswap.Decimal.{Decimal}
use crosschainswap.Decimal.Laws.{min-pos}
use crosschainswap.Order.{Order, Trade}
use crosschainswap.Engine.{filled_by, trade_of}
use crosschainswap.Engine.Run.{
  Run, stop, expire, trade, IsFair, eligible_maker-Eligible, priced, match_qty,
}

IsFair-filled_by :
    (now limit : ℕ) (t : Order) (q : Decimal) (x : Trade)
    → IsFair limit (filled_by now t q) x
    → IsFair limit t x
unfolding filled_by
IsFair-filled_by now limit t q x f = record {
  positive = f.positive;
  quoted = f.quoted;
  paid = f.paid;
  buys_within = f.buys_within;
  sells_within = f.sells_within;
  taker_kept = f.taker_kept;
  user_kept = f.user_kept;
  not_self = f.not_self;
  other_order = f.other_order;
  same_market = f.same_market;
}

module _ {new_trade_id : ℕ → ℕ} {now limit : ℕ} where
  pub Run-IsFair :
      {n : ℕ} {t t' : Order} {os ms : List Order} {ts : List Trade}
      → Run new_trade_id now limit n t os ms ts t'
      → All (IsFair limit t) ts
  unfolding trade_of
  Run-IsFair (stop n t) = tt
  Run-IsFair (expire n t h) = tt
  Run-IsFair (trade {t} m a b c r) =
      let e = eligible_maker-Eligible (priced limit t) m b in
      (
        record {
          positive = min-pos t.remaining_quantity m.remaining_quantity (ltb→lt 0 _ a) e.remains;
          quoted = refl;
          paid = ground arith;
          buys_within = λ h. (e.buys_within h).1;
          sells_within = λ h. (e.sells_within h).1;
          taker_kept = ground arith;
          user_kept = ground arith;
          not_self = e.not_self;
          other_order = e.other_order;
          same_market = ground arith;
        },
        All-map _ _ (λ x f. IsFair-filled_by now limit t (match_qty t m) x f) _ (Run-IsFair r),
      )
