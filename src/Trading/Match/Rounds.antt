-- ===== src/Trading/Match/Rounds.antt =====
-- A round of `match`: it finds no candidate, fails as `MatchLimit` does, or makes what `MatchLimit`
-- makes of the candidates.
use crosschainswap.Prelude.{
  ℕ, ◌+◌, ◌≡◌, inl, inr, refl, false, List, [], ◌∷◌, ok, err, length, Result-cases,
}
use crosschainswap.Order.{Order}
use crosschainswap.Engine.{MatchResult, MatchError, match_limit}
use crosschainswap.Orders.Rules.{effective_match_taker}
use crosschainswap.Exchange.{Tables, ExchangeError, pure, reads, from_result, ◌>>=◌}
use crosschainswap.Exchange.ActiveOrders.Present.{write_orders, save_orders-eq}
use crosschainswap.Trading.{Env}
use crosschainswap.Trading.Match.{
  Matching, after_round, trade_ids, candidates_of, meet_candidates, match_round,
}

module _ (env : Env) (base : ℕ) (m : Matching) (t : Tables) where
  abbrev pub candidates : List Order
  candidates = candidates_of env m t

  abbrev pub ids : ℕ → ℕ
  ids = trade_ids env (base + length m.trades)

  pub data RoundCase : Type 0 where
    nobody : match_round env base m t ≡ ok ((m, false), t) → RoundCase
    refused :
        (e : MatchError) → match_round env base m t ≡ err (ExchangeError.of_match e) → RoundCase
    met :
        (r : MatchResult)
        → match_limit ids env.now (effective_match_taker m.taker) candidates ≡ ok r
        → match_round env base m t ≡ ok (after_round m r, write_orders r.makers t)
        → RoundCase

  meet_cases : (cs : List Order) → candidates ≡ cs → RoundCase
  unfolding match_round meet_candidates reads from_result pure ◌>>=◌
  meet_cases [] e = nobody (rw e refl)
  meet_cases (c ∷ cs) e =
      elim (Result-cases (match_limit ids env.now (effective_match_taker m.taker) (c ∷ cs))) [
        | inl (r, done) ↦ met r (rw e done) (rw (e, done, save_orders-eq r.makers t) refl)
        | inr (problem, failed) ↦ refused problem (rw (e, failed) refl)
      ]

  pub round_cases : RoundCase
  round_cases = meet_cases candidates refl
