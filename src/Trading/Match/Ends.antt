-- ===== src/Trading/Match/Ends.antt =====
-- The loop of `match` ends: a round that leaves the taker with something takes the makers that it
-- traded with out of the table of active orders, so there are fewer rounds than active orders.
use crosschainswap.Prelude.{
  ℕ, zero, suc, ◌<◌, ◌≡◌, ◌⊎◌, inl, inr, refl, ap, Bool, true, false, List, [], ◌∷◌, ok, err, arith,
  All, All-map, length, List-cases, Bool-cases, Result,
}
use crosschainswap.Decimal.{is_positive}
use crosschainswap.Order.{Order, Trade}
use crosschainswap.Engine.{MatchResult, MatchError, match_limit}
use crosschainswap.Engine.Run.{Fills}
use crosschainswap.Engine.Limit.Used.{match_limit_uses, match_limit_originals}
use crosschainswap.Orders.Rules.{effective_match_taker}
use crosschainswap.Exchange.{Tables, ExchangeError, Tx, pure, reads, ◌>>=◌}
use crosschainswap.Exchange.ActiveOrders.{write_order, delete_order}
use crosschainswap.Exchange.ActiveOrders.Present.{
  Present, list_match_candidates-Present, write_orders, IsFilled, length-write_orders, filled-sync,
}
use crosschainswap.Exchange.Levels.{LevelKey}
use crosschainswap.Trading.{Env}
use crosschainswap.Trading.Match.{
  Matching, start_matching, after_round, close_matching, go_on, match_loop, match_orders,
}
use crosschainswap.Trading.Match.Rounds.{candidates, ids, RoundCase, round_cases}

first_removed :
    (n o : Order) (ms : List Order) (t : Tables)
    → n.id ≡ o.id
    → Present t.active o
    → All IsFilled (n ∷ ms)
    → length (write_orders (n ∷ ms) t).active < length t.active
first_removed n o ms t same here filled =
    let gone : length (delete_order n.id t.active) < length t.active = rw same here in
    omega (
      arith,
      length-write_orders ms (write_order n t) filled.1,
      ap length (filled-sync n t.active filled.0),
      gone,
    )

-- A list of fills with a trade has a first maker.
first_active :
    (active os ms : List Order) (x : Trade) (xs : List Trade)
    → Fills os ms (x ∷ xs)
    → All (Present active) os
    → 0 < length active
first_active active [] [] x xs h p = absurd h
first_active active [] (n ∷ ms) x xs h p = absurd h
first_active active (o ∷ os) [] x xs h p = absurd h
first_active active (o ∷ os) (n ∷ ms) x xs h p = omega (arith, p.0)

All-removed :
    (t : Tables) (os ms : List Order) (x : Trade) (xs : List Trade)
    → Fills os ms (x ∷ xs)
    → All (Present t.active) os
    → All IsFilled ms
    → length (write_orders ms t).active < length t.active
All-removed t [] [] x xs h p f = absurd h
All-removed t [] (n ∷ ms) x xs h p f = absurd h
All-removed t (o ∷ os) [] x xs h p f = absurd h
All-removed t (o ∷ os) (n ∷ ms) x xs h p f = first_removed n o ms t (h.0).same_id p.0 f

module _ (env : Env) (base : ℕ) (m : Matching) (t : Tables) (r : MatchResult)
    (done : match_limit
        (ids env base m t)
        env.now
        (effective_match_taker m.taker)
        (candidates env base m t)
      ≡ ok r)
    (x : Trade) (xs : List Trade) (traded : r.trades ≡ x ∷ xs) where
  here : All (Present t.active) (candidates env base m t)
  here = list_match_candidates-Present _ _ _ _ _ t.active

  some_active : 0 < length t.active
  some_active =
      let (os, present, fills) = match_limit_originals _ _ _ _ done (Present t.active) here in
      first_active t.active os r.makers x xs (rw (← traded) fills) present

  round_shrinks :
      is_positive r.taker.remaining_quantity ≡ true
      → length (write_orders r.makers t).active < length t.active
  round_shrinks more =
      let (os, present, fills, used) = match_limit_uses _ _ _ _ done (Present t.active) here more in
      All-removed t os r.makers x xs (rw (← traded) fills) present
        (All-map _ _ (λ a h. h.1) r.makers used)

-- The result of a call that either succeeds, or fails as `MatchLimit` does.
abbrev pub Returns : {A : Type 0} → Result ExchangeError (A × Tables) → Type 0
Returns {A} x =
    ((a : A) × (t : Tables) × (x ≡ ok (a, t)))
    ⊎ ((e : MatchError) × (x ≡ err (ExchangeError.of_match e)))

after_none : (m : Matching) (r : MatchResult) → r.trades ≡ [] → (after_round m r).1 ≡ false
unfolding after_round
after_none m r e = ground arith

after_some :
    (m : Matching) (r : MatchResult) (x : Trade) (xs : List Trade)
    → r.trades ≡ x ∷ xs
    → ((after_round m r).1 ≡ true)
      × ((after_round m r).0.taker.remaining_quantity ≡ r.taker.remaining_quantity)
unfolding after_round
after_some m r x xs e = (ground arith, ground arith)

pub go_on-stop :
    (env : Env) (again : Matching → Tx Matching) (p : Matching × Bool)
    → p.1 ≡ false
    → go_on env again p ≡ pure p.0
go_on-stop env again (m, false) h = refl
go_on-stop env again (m, true) h = cc

pub go_on-again :
    (env : Env) (again : Matching → Tx Matching) (p : Matching × Bool)
    → p.1 ≡ true
    → go_on env again p ≡ again p.0
go_on-again env again (m, false) h = cc
go_on-again env again (m, true) h = refl

module _ (env : Env) (base : ℕ) where
  match_loop-Returns :
      (fuel : ℕ) (m : Matching) (t : Tables)
      → 0 < fuel
      → (is_positive m.taker.remaining_quantity ≡ true → length t.active < fuel)
      → Returns (match_loop env fuel base m t)
  unfolding match_loop pure ◌>>=◌
  match_loop-Returns zero m t some_fuel enough = absurd (omega arith)
  match_loop-Returns (suc fuel) m t some_fuel enough =
      elim (Bool-cases (is_positive m.taker.remaining_quantity)) [
        | inr no_more ↦ rw no_more (inl (m, t, refl))
        | inl more ↦ rw more (elim (round_cases env base m t) [
          | RoundCase.nobody e ↦ rw e (inl (m, t, refl))
          | RoundCase.refused p e ↦ rw e (inr (p, refl))
          | RoundCase.met r done e ↦ rw e (elim (List-cases r.trades) [
            | inl none_traded ↦
                rw
                  (go_on-stop env (match_loop env fuel base) (after_round m r)
                    (after_none m r none_traded))
                  (inl (_, _, refl))
            | inr (x, xs, traded) ↦
                let (again, same) = after_some m r x xs traded in
                let active = some_active env base m t r done x xs traded in
                let shrinks = round_shrinks env base m t r done x xs traded in
                rw (go_on-again env (match_loop env fuel base) (after_round m r) again) (
                  match_loop-Returns fuel _ _ (omega (arith, enough more))
                    (λ left. omega (arith, enough more, shrinks (rw (← same) left))))
          ])
        ])
      ]

-- `match` always returns: it succeeds, or it fails as `MatchLimit` does, and its loop ends within
-- one round more than there are active orders.
pub match_orders-total :
    (env : Env) (taker : Order) (levels : List LevelKey) (t : Tables)
    → Returns (match_orders env taker levels t)
unfolding match_orders reads pure ◌>>=◌
match_orders-total env taker levels t =
    elim (match_loop-Returns env (length t.trades) (suc (length t.active))
      (start_matching taker levels) t (omega arith) (λ h. omega arith)) [
        | inl (m, t', e) ↦ rw e (inl (close_matching m, t', refl))
        | inr (p, e) ↦ rw e (inr (p, refl))
      ]
