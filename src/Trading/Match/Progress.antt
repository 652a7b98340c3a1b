-- ===== src/Trading/Match/Progress.antt =====
-- How far `match` has come after each of its rounds: what its loop keeps.
use crosschainswap.Prelude.{
  ℕ, zero, suc, ◌+◌, ◌≡◌, inl, inr, refl, ap, sym, ◌∙◌, List, [], ◌++◌, ok, arith, All, All-map,
  All-append, Bool-cases, Result, subst,
}
use crosschainswap.Decimal.{val, is_positive}
use crosschainswap.Order.{Order, Trade}
use crosschainswap.Engine.{MatchResult, match_limit}
use crosschainswap.Engine.Run.{IsFair, Fills, traded}
use crosschainswap.Engine.Limit.{match_limit_conserves, match_limit-IsFair}
use crosschainswap.Engine.Limit.Used.{
  SameOrder, SameOrder-refl, SameOrder-trans, match_limit-SameOrder,
}
use crosschainswap.Orders.Rules.{effective_match_taker}
use crosschainswap.Exchange.{Tables, ExchangeError, pure, throw, ◌>>=◌}
use crosschainswap.Exchange.Keeps.{not_ok}
use crosschainswap.Exchange.Levels.{LevelKey}
use crosschainswap.Trading.{Env}
use crosschainswap.Trading.Match.{Matching, start_matching, after_round, match_loop}
use crosschainswap.Trading.Match.Gathered.{
  traded-append, at_price, after_taker, after_trades, after_makers, Fills-append,
}
use crosschainswap.Trading.Match.Rounds.{candidates, ids, RoundCase, round_cases}
use crosschainswap.Trading.Match.Ends.{go_on-stop, go_on-again}

pub same_matching :
    (P : Matching → Type 0) {m m' : Matching} {t t' : Tables}
    → ◌≡◌ {A = Result ExchangeError (Matching × Tables)} (ok (m, t)) (ok (m', t'))
    → P m
    → P m'
same_matching P h p = subst P (cc) p

-- What a successful loop keeps, if each round that meets candidates keeps it.
module _ (env : Env) (base : ℕ) (P : Matching → Type 0)
    (keep : (m : Matching) (t : Tables) (r : MatchResult)
      → P m
      → match_limit
          (ids env base m t)
          env.now
          (effective_match_taker m.taker)
          (candidates env base m t)
        ≡ ok r
      → P (after_round m r).0) where
  pub match_loop_rule :
      (fuel : ℕ) (m : Matching) (t : Tables) {m' : Matching} {t' : Tables}
      → P m
      → match_loop env fuel base m t ≡ ok (m', t')
      → P m'
  unfolding match_loop pure throw ◌>>=◌
  match_loop_rule zero m t p h = cc
  match_loop_rule (suc fuel) m t p h = elim (Bool-cases (is_positive m.taker.remaining_quantity)) [
    | inr none_left ↦ same_matching P (rw none_left at h) p
    | inl more ↦ elim (round_cases env base m t) [
      | RoundCase.nobody e ↦ same_matching P (rw (more, e) at h) p
      | RoundCase.refused problem e ↦ absurd (not_ok (rw (more, e) at h))
      | RoundCase.met r done e ↦
          let next = keep m t r p done in
          elim (Bool-cases (after_round m r).1) [
            | inl again ↦ match_loop_rule fuel (after_round m r).0 _ next (
                rw (more, e, go_on-again env (match_loop env fuel base) (after_round m r) again) at
                  h)
            | inr stop ↦
                same_matching P
                  (rw (more, e, go_on-stop env (match_loop env fuel base) (after_round m r) stop) at
                    h)
                  next
          ]
    ]
  ]

effective-same :
    (a b : Order)
    → SameOrder a b
    → b.price ≡ a.price
    → (effective_match_taker b).price ≡ (effective_match_taker a).price
unfolding effective_match_taker
effective-same a b s p = rw (s.type_eq, s.side_eq) (ground arith)

effective-SameOrder : (o : Order) → SameOrder o (effective_match_taker o)
unfolding effective_match_taker
effective-SameOrder o = record {
  id_eq = ground arith;
  user_eq = ground arith;
  market_eq = ground arith;
  side_eq = ground arith;
  type_eq = ground arith;
  force_eq = ground arith;
}

effective-quantities :
    (o : Order)
    → ((effective_match_taker o).remaining_quantity ≡ o.remaining_quantity)
      × ((effective_match_taker o).filled_quantity ≡ o.filled_quantity)
unfolding effective_match_taker
effective-quantities o = (ground arith, ground arith)

-- A trade that is fair to a taker is fair to the same taker at another stage.
IsFair-SameOrder : (p : ℕ) (a b : Order) (x : Trade) → SameOrder a b → IsFair p b x → IsFair p a x
IsFair-SameOrder p a b x s f = record {
  positive = f.positive;
  quoted = f.quoted;
  paid = f.paid;
  buys_within = λ h. f.buys_within (s.side_eq ∙ h);
  sells_within = λ h. f.sells_within (s.side_eq ∙ h);
  taker_kept = f.taker_kept ∙ s.id_eq;
  user_kept = f.user_kept ∙ s.user_eq;
  not_self = λ h e. f.not_self (λ z. h (sym s.user_eq ∙ z)) (e ∙ sym s.user_eq);
  other_order = λ e. f.other_order (e ∙ sym s.id_eq);
  same_market = f.same_market ∙ s.market_eq;
}

-- How far a match of the taker `o` has come.
pub record Progress (o : Order) (m : Matching) : Type 0 where
  pub same : SameOrder o m.taker
  pub price_kept : m.taker.price ≡ o.price
  pub filled : val m.taker.filled_quantity ≡ val o.filled_quantity + traded m.trades
  pub left : val m.taker.remaining_quantity + traded m.trades ≡ val o.remaining_quantity
  pub fair : All (IsFair (effective_match_taker o).price o) m.trades
  pub filled_makers : (os : List Order) × Fills os m.makers m.trades

kept_at : {o b : Order} {p : ℕ} → SameOrder o b → SameOrder o (at_price p b)
kept_at s = record {
  id_eq = s.id_eq;
  user_eq = s.user_eq;
  market_eq = s.market_eq;
  side_eq = s.side_eq;
  type_eq = s.type_eq;
  force_eq = s.force_eq;
}

module _ (env : Env) (base : ℕ) (o : Order) where
  pub Progress-round :
      (m : Matching) (t : Tables) (r : MatchResult)
      → Progress o m
      → match_limit
          (ids env base m t)
          env.now
          (effective_match_taker m.taker)
          (candidates env base m t)
        ≡ ok r
      → Progress o (after_round m r).0
  Progress-round m t r p done =
      let (fl, lf, done_by) = match_limit_conserves _ _ _ _ done in
      let (os, _, one_round) = done_by in
      let (rem, fil) = effective-quantities m.taker in
      let (fair, _) = match_limit-IsFair _ _ _ _ done in
      let sum = traded-append m.trades r.trades in
      let trades = after_trades m r in
      let total = ap traded trades in
      let eff = SameOrder-trans p.same (effective-SameOrder m.taker) in
      let ended = SameOrder-trans eff (match_limit-SameOrder _ _ _ _ done) in
      let rem' = ap val rem in
      let fil' = ap val fil in
      let as_fair : All (IsFair (effective_match_taker o).price o) r.trades =
        All-map _ _
          (λ x f. IsFair-SameOrder _ o (effective_match_taker m.taker) x eff (
            subst (λ q. IsFair q (effective_match_taker m.taker) x)
              (effective-same o m.taker p.same p.price_kept) f))
          r.trades fair in
      let all_fair : All (IsFair (effective_match_taker o).price o) (after_round m r).0.trades =
        rw trades (All-append _ m.trades r.trades p.fair as_fair) in
      let all_filled : (os : List Order) × Fills os (after_round m r).0.makers
            (after_round m r).0.trades =
        let (earlier, f) = p.filled_makers in
        (
          earlier ++ os,
          rw (trades, after_makers m r)
              (Fills-append earlier m.makers m.trades os r.makers r.trades f one_round),
        ) in
      elim (after_taker m r) [
        | inl e ↦ record {
          same = rw e (kept_at ended);
          price_kept = ap (λ z. z.price) e ∙ p.price_kept;
          filled = omega (arith, ap (λ z. val z.filled_quantity) e, fl, fil', sum, total, p.filled);
          left = omega (arith, ap (λ z. val z.remaining_quantity) e, lf, rem', sum, total, p.left);
          fair = all_fair;
          filled_makers = all_filled;
        }
        | inr (e, none_traded) ↦ record {
          same = rw e p.same;
          price_kept = ap (λ z. z.price) e ∙ p.price_kept;
          filled = omega (
            arith,
            ap (λ z. val z.filled_quantity) e,
            ap traded none_traded,
            sum,
            total,
            p.filled,
          );
          left = omega (
            arith,
            ap (λ z. val z.remaining_quantity) e,
            ap traded none_traded,
            sum,
            total,
            p.left,
          );
          fair = all_fair;
          filled_makers = all_filled;
        }
      ]

pub Progress-start : (o : Order) (levels : List LevelKey) → Progress o (start_matching o levels)
Progress-start o levels = record {
  same = SameOrder-refl o;
  price_kept = refl;
  filled = omega arith;
  left = omega arith;
  fair = tt;
  filled_makers = ([], tt);
}
