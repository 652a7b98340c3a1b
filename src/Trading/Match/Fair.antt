-- ===== src/Trading/Match/Fair.antt =====
-- What `match` promises over all of its rounds: quantities are conserved, and every trade is one
-- that the taker may expect.
use crosschainswap.Prelude.{
  suc, ◌+◌, ◌≡◌, ◌⊎◌, inl, inr, refl, Bool, true, false, List, ok, length, Bool-cases,
}
use crosschainswap.Decimal.{val, is_positive}
use crosschainswap.Order.{Status, Order}
use crosschainswap.Engine.Run.{traded}
use crosschainswap.Orders.Rules.{is_immediate_only}
use crosschainswap.Exchange.{Tables, pure, reads, ◌>>=◌}
use crosschainswap.Exchange.Levels.{LevelKey}
use crosschainswap.Exchange.Keeps.{bind_ok}
use crosschainswap.Trading.{Env}
use crosschainswap.Trading.Match.{
  Matching, start_matching, close_matching, final_taker_status, match_loop, match_orders,
}
use crosschainswap.Trading.Match.Progress.{
  same_matching, match_loop_rule, Progress, Progress-round, Progress-start,
}

-- The status of a taker behind the loop.
abbrev Ended : Order → Order → Type 0
Ended o taker =
    is_positive taker.remaining_quantity ≡ true
    → (taker.status ≡ Status.expired)
      ⊎ (is_immediate_only o ≡ false)
        × ((taker.status ≡ Status.partially_filled) ⊎ (taker.status ≡ Status.opened))

final_cases :
    (now_only : Bool) (s : Status)
    → (final_taker_status now_only s ≡ Status.expired)
      ⊎ (now_only ≡ false)
        × ((final_taker_status now_only s ≡ Status.partially_filled)
            ⊎ (final_taker_status now_only s ≡ Status.opened))
final_cases true s = inl refl
final_cases false Status.partially_filled = inr (refl, inl refl)
final_cases false Status.expired = inl refl
final_cases false _ = inr (refl, inr refl)

-- Closing changes nothing but the status.
record Closed (o : Order) (q m : Matching) : Type 0 where
  progress : Progress o m
  ended : Ended o m.taker

close_matching-Closed : (o : Order) (q : Matching) → Progress o q → Closed o q (close_matching q)
unfolding close_matching
close_matching-Closed o q p = elim (Bool-cases (is_positive q.taker.remaining_quantity)) [
  | inr e ↦ rw e (record {
    progress = record {
      same = p.same;
      price_kept = p.price_kept;
      filled = p.filled;
      left = p.left;
      fair = p.fair;
      filled_makers = p.filled_makers;
    };
    ended = λ h. cc;
  })
  | inl e ↦
      let same_kind : is_immediate_only q.taker ≡ is_immediate_only o =
        rw ((p.same).type_eq, (p.same).force_eq) refl in
      rw e (record {
        progress = record {
          same = record {
            id_eq = (p.same).id_eq;
            user_eq = (p.same).user_eq;
            market_eq = (p.same).market_eq;
            side_eq = (p.same).side_eq;
            type_eq = (p.same).type_eq;
            force_eq = (p.same).force_eq;
          };
          price_kept = p.price_kept;
          filled = p.filled;
          left = p.left;
          fair = p.fair;
          filled_makers = p.filled_makers;
        };
        ended = λ h. rw (← same_kind) (final_cases (is_immediate_only q.taker) q.taker.status);
      })
]

module _ (env : Env) (o : Order) (levels : List LevelKey) (t t' : Tables) (m : Matching)
    (matched : match_orders env o levels t ≡ ok (m, t')) where
  closed : (q : Matching) × Closed o q m
  unfolding match_orders reads pure ◌>>=◌
  closed =
      let base = length t.trades in
      let (q, t₁, loop, fin) =
        bind_ok (match_loop env (suc (length t.active)) base (start_matching o levels))
          (λ x. pure (close_matching x)) t matched in
      let p =
        match_loop_rule env base (Progress o) (Progress-round env base o) (suc (length t.active))
          (start_matching o levels) t (Progress-start o levels) loop in
      (q, same_matching (Closed o q) fin (close_matching-Closed o q p))

  -- A match conserves quantities over all of its rounds: the taker is filled by what the trades add
  -- up to, and keeps the rest.
  pub match_orders_conserves :
      (val m.taker.filled_quantity ≡ val o.filled_quantity + traded m.trades)
      × (val m.taker.remaining_quantity + traded m.trades ≡ val o.remaining_quantity)
  match_orders_conserves = let (q, c) = closed in ((c.progress).filled, (c.progress).left)

  -- A taker that keeps something ends expired, or open or partially filled, and never the latter if
  -- it is a market order or one that is to be filled at once.
  match_orders-status :
      is_positive m.taker.remaining_quantity ≡ true
      → (m.taker.status ≡ Status.expired)
        ⊎ (is_immediate_only o ≡ false)
          × ((m.taker.status ≡ Status.partially_filled) ⊎ (m.taker.status ≡ Status.opened))
  match_orders-status = let (q, c) = closed in c.ended
