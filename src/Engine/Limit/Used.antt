-- ===== src/Engine/Limit/Used.antt =====
-- What `MatchLimit` leaves as it was in the taker, and which makers it used up.
use crosschainswap.Prelude.{ok, ap, ◌∙◌, ℕ, ◌≡◌, refl, true, List, All}
use crosschainswap.Decimal.{val, is_positive}
use crosschainswap.Order.{Status, Order, Trade}
use crosschainswap.Engine.{MatchResult, match_limit, filled_by}
use crosschainswap.Engine.Run.{Run, stop, expire, trade, Fills}
use crosschainswap.Engine.Conservation.{Run-Fills}
use crosschainswap.Engine.Ends.{Run-All-filled}
use crosschainswap.Engine.Refines.{Picked}
use crosschainswap.Engine.Limit.{limit_run}

-- A match changes no other part of an order that later steps read.
pub record SameOrder (t t' : Order) : Type 0 where
  pub id_eq : t'.id ≡ t.id
  pub user_eq : t'.user_id ≡ t.user_id
  pub market_eq : t'.market ≡ t.market
  pub side_eq : t'.side ≡ t.side
  pub type_eq : t'.type ≡ t.type
  pub force_eq : t'.time_in_force ≡ t.time_in_force

pub SameOrder-refl : (t : Order) → SameOrder t t
SameOrder-refl t = record {
  id_eq = refl;
  user_eq = refl;
  market_eq = refl;
  side_eq = refl;
  type_eq = refl;
  force_eq = refl;
}

pub SameOrder-trans : {a b c : Order} → SameOrder a b → SameOrder b c → SameOrder a c
SameOrder-trans p q = record {
  id_eq = q.id_eq ∙ p.id_eq;
  user_eq = q.user_eq ∙ p.user_eq;
  market_eq = q.market_eq ∙ p.market_eq;
  side_eq = q.side_eq ∙ p.side_eq;
  type_eq = q.type_eq ∙ p.type_eq;
  force_eq = q.force_eq ∙ p.force_eq;
}

Picked-All :
    (P : Order → Type 0) {t t' : Order} {os ms : List Order}
    → Picked t t' os ms
    → All P ms
    → All P os
Picked-All P Picked.finished h = tt
Picked-All P (Picked.halted ms e) h = tt
Picked-All P (Picked.pass m a p) h = Picked-All P p h.1
Picked-All P (Picked.pick m a p) h = (h.0, Picked-All P p h.1)

module _ {new_trade_id : ℕ → ℕ} {now limit : ℕ} where
  Run-SameOrder :
      {n : ℕ} {t t' : Order} {os ms : List Order} {ts : List Trade}
      → Run new_trade_id now limit n t os ms ts t'
      → SameOrder t t'
  unfolding filled_by
  Run-SameOrder (stop n t) = SameOrder-refl t
  Run-SameOrder (expire n t a) = record {
    id_eq = refl;
    user_eq = refl;
    market_eq = refl;
    side_eq = refl;
    type_eq = refl;
    force_eq = refl;
  }
  Run-SameOrder (trade m a b c r) =
      let s = Run-SameOrder r in
      record {
        id_eq = s.id_eq;
        user_eq = s.user_eq;
        market_eq = s.market_eq;
        side_eq = s.side_eq;
        type_eq = s.type_eq;
        force_eq = s.force_eq;
      }

module _ (new_trade_id : ℕ → ℕ) (now : ℕ) (taker : Order) (makers : List Order) {r : MatchResult}
    (matched : match_limit new_trade_id now taker makers ≡ ok r) where
  pub match_limit-SameOrder : SameOrder taker r.taker
  match_limit-SameOrder =
      let k = limit_run new_trade_id now taker makers matched in
      let s = Run-SameOrder (k.run) in
      record {
        id_eq = ap (λ o. o.id) k.ended ∙ s.id_eq;
        user_eq = ap (λ o. o.user_id) k.ended ∙ s.user_eq;
        market_eq = ap (λ o. o.market) k.ended ∙ s.market_eq;
        side_eq = ap (λ o. o.side) k.ended ∙ s.side_eq;
        type_eq = ap (λ o. o.type) k.ended ∙ s.type_eq;
        force_eq = ap (λ o. o.time_in_force) k.ended ∙ s.force_eq;
      }

  -- If the taker keeps something, expired or not, each maker that it traded with stood in the list
  -- and is used up.
  pub match_limit_uses :
      (P : Order → Type 0)
      → All P makers
      → is_positive r.taker.remaining_quantity ≡ true
      → (os : List Order) × All P os
        × Fills os r.makers r.trades
        × All (λ m. (val m.remaining_quantity ≡ 0) × (m.status ≡ Status.filled)) r.makers
  match_limit_uses P h more =
      let k = limit_run new_trade_id now taker makers matched in
      let left : is_positive (k.last).remaining_quantity ≡ true =
        rw (← ap (λ o. o.remaining_quantity) k.ended) more in
      (k.originals, Picked-All P k.picked h, Run-Fills (k.run), Run-All-filled (k.run) left)

  -- And the makers that it traded with stood in the list in any case.
  pub match_limit_originals :
      (P : Order → Type 0)
      → All P makers
      → (os : List Order) × All P os × Fills os r.makers r.trades
  match_limit_originals P h =
      let k = limit_run new_trade_id now taker makers matched in
      (k.originals, Picked-All P k.picked h, Run-Fills (k.run))
