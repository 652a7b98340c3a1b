-- ===== src/Engine/Carried.antt =====
-- A loop that appends to its result carries out a run: the makers and trades that it appends.
use crosschainswap.Prelude.{
  ℕ, ◌≡◌, sym, ◌∙◌, subst, true, List, [], ◌∷◌, ◌++◌, arith, length, length-append,
}
use mathlib.Core.List.{append-nil, append_assoc}
use crosschainswap.Decimal.{is_positive}
use crosschainswap.Order.{Order, Trade}
use crosschainswap.Engine.{MatchResult, fill, expire_taker, eligible_maker, filled_by}
use crosschainswap.Engine.Run.{Run, stop, expire, trade, priced, match_qty, match_quote}

module _ (new_trade_id : ℕ → ℕ) (now : ℕ) (limit : ℕ) where
  pub record Carried (r : MatchResult) (originals : List Order) (r' : MatchResult) : Type 0 where
    pub filled : List Order
    pub fresh : List Trade
    pub run : Run new_trade_id now limit (length r.trades) r.taker originals filled fresh r'.taker
    pub makers_eq : r'.makers ≡ r.makers ++ filled
    pub trades_eq : r'.trades ≡ r.trades ++ fresh

  pub Carried-stop : (r : MatchResult) → Carried r [] r
  Carried-stop r = record {
    filled = [];
    fresh = [];
    run = stop _ r.taker;
    makers_eq = sym (append-nil r.makers);
    trades_eq = sym (append-nil r.trades);
  }

  pub Carried-expire :
      (r : MatchResult)
      → is_positive r.taker.remaining_quantity ≡ true
      → Carried r [] (expire_taker now r)
  unfolding expire_taker
  Carried-expire r h = record {
    filled = [];
    fresh = [];
    run = expire _ r.taker h;
    makers_eq = sym (append-nil r.makers);
    trades_eq = sym (append-nil r.trades);
  }

  pub Carried-fill :
      (r : MatchResult) (m : Order) (os : List Order) (r' : MatchResult)
      → is_positive r.taker.remaining_quantity ≡ true
      → eligible_maker (priced limit r.taker) m ≡ true
      → is_positive (match_quote r.taker m) ≡ true
      → Carried (fill new_trade_id now r m (match_qty r.taker m) (match_quote r.taker m)) os r'
      → Carried r (m ∷ os) r'
  unfolding fill
  Carried-fill r m os r' a b c k = record {
    filled = filled_by now m (match_qty r.taker m) ∷ k.filled;
    fresh = _;
    run = trade m a b c (
        subst
          (λ n.
            Run new_trade_id now limit n (filled_by now r.taker (match_qty r.taker m)) os k.filled
              k.fresh r'.taker)
          (omega (arith, length-append {0} r.trades)) k.run);
    makers_eq = k.makers_eq ∙ append_assoc r.makers _ k.filled;
    trades_eq = k.trades_eq ∙ append_assoc r.trades _ k.fresh;
  }
