-- ===== src/Engine/Limit.antt =====
-- What `MatchLimit` promises its caller.
pub mod Used
use crosschainswap.Prelude.{
  sym, ap, ◌∙◌, ok, >>=-eq-ok, ℕ, ◌+◌, ◌≡◌, ◌≢◌, ◌⊎◌, inl, inr, true, false, List, [], ◌∷◌, arith,
  All, Bool-cases,
}
use mathlib.Core.Path.{subst₂}
use crosschainswap.Prelude.Sublist.{Sublist, Sublist-nil}
use crosschainswap.Decimal.{val, is_positive}
use crosschainswap.Order.{Status, Order, Trade}
use crosschainswap.Engine.{
  MatchResult, match_limit, match_makers, validate_taker, settle_status, settled, eligible_maker,
}
use crosschainswap.Engine.Run.{Run, traded, IsFair, Fills}
use crosschainswap.Engine.Conservation.{Run-filled, Run-remaining, Run-Fills}
use crosschainswap.Engine.Fairness.{Run-IsFair}
use crosschainswap.Engine.Ends.{Run-status_filled, Run-status_open, Run-All-filled}
use crosschainswap.Engine.Refines.{Picked, match_makers-Picks}

abbrev pub start : Order → MatchResult
start taker = record { taker = taker; makers = []; trades = [] }

-- A successful call went through its loop, and set the taker's status at the end.
match_limit_ok :
    (new_trade_id : ℕ → ℕ) (now : ℕ) (taker : Order) (makers : List Order) (r : MatchResult)
    → match_limit new_trade_id now taker makers ≡ ok r
    → (validate_taker taker ≡ ok tt)
      × (q : MatchResult) × (match_makers new_trade_id now (start taker) makers ≡ ok q)
      × (r ≡ settle_status q)
unfolding match_limit
match_limit_ok new_trade_id now taker makers r h =
    let (_, v, k) = >>=-eq-ok (validate_taker taker) _ h in
    let (q, m, e) = >>=-eq-ok (match_makers new_trade_id now (start taker) makers) _ k in
    (v, q, m, cc)

validate_taker-remains :
    (t : Order) → validate_taker t ≡ ok tt → is_positive t.remaining_quantity ≡ true
unfolding validate_taker
validate_taker-remains t h = ground arith

settled_cases :
    {A : Type 0} (s s' : Status) {s'' : Status}
    → s'' ≡ settled s true
    → (s ≡ Status.expired) ⊎ (s ≡ Status.partially_filled) ⊎ (A × (s ≡ s'))
    → (s'' ≡ Status.expired) ⊎ (s'' ≡ Status.partially_filled) ⊎ (A × (s'' ≡ Status.opened))
settled_cases Status.expired s' e h = inl e
settled_cases Status.partially_filled s' e h = inr (inl e)
settled_cases s s' e (inl h) = inl (cc)
settled_cases s s' e (inr (inl h)) = inr (inl (cc))
settled_cases s s' e (inr (inr (a, h))) = inr (inr (a, e))

-- The makers that were chosen, where the list was gone through to its end.
pub data Chosen (t : Order) : List Order → List Order → Type 0 where
  finished : Chosen t [] []
  pass :
      {os ms : List Order} (m : Order)
      → eligible_maker t m ≡ false
      → Chosen t os ms
      → Chosen t os (m ∷ ms)
  pick :
      {os ms : List Order} (m : Order)
      → eligible_maker t m ≡ true
      → Chosen t os ms
      → Chosen t (m ∷ os) (m ∷ ms)

Picked-Chosen :
    {t t' : Order} {os ms : List Order}
    → Picked t t' os ms
    → is_positive t'.remaining_quantity ≡ true
    → t'.status ≢ Status.expired
    → Chosen t os ms
Picked-Chosen Picked.finished h n = finished
Picked-Chosen (Picked.halted ms (inl e)) h n = cc
Picked-Chosen (Picked.halted ms (inr e)) h n = absurd (n e)
Picked-Chosen (Picked.pass m a p) h n = pass m a (Picked-Chosen p h n)
Picked-Chosen (Picked.pick m a p) h n = pick m a (Picked-Chosen p h n)

Picked-Sublist : {t t' : Order} {os ms : List Order} → Picked t t' os ms → Sublist os ms
Picked-Sublist Picked.finished = Sublist.nil
Picked-Sublist (Picked.halted ms h) = Sublist-nil ms
Picked-Sublist (Picked.pass m a p) = Sublist.leave m (Picked-Sublist p)
Picked-Sublist (Picked.pick m a p) = Sublist.keep m (Picked-Sublist p)

-- Some of the makers, in their order, became the makers `ms`, each by the trade at its place.
abbrev pub Executed : List Order → List Order → List Trade → Type 0
Executed makers ms ts = (os : List Order) × Sublist os makers × Fills os ms ts

module _ (new_trade_id : ℕ → ℕ) (now : ℕ) (taker : Order) (makers : List Order) {r : MatchResult}
    (matched : match_limit new_trade_id now taker makers ≡ ok r) where
  -- The loop carries out a run that leaves the taker `last`, and then only a status changes.
  pub record LimitRun : Type 0 where
    pub originals : List Order
    pub last : Order
    pub valid : validate_taker taker ≡ ok tt
    pub run : Run new_trade_id now taker.price 0 taker originals r.makers r.trades last
    pub picked : Picked taker last originals makers
    pub ended :
        r.taker ≡ record last { status = settled last.status (is_positive last.remaining_quantity) }

  pub limit_run : LimitRun
  unfolding settle_status
  limit_run =
      let (valid, q, m, e) = match_limit_ok new_trade_id now taker makers r matched in
      let (os, p, c) = match_makers-Picks new_trade_id now (start taker) makers q m in
      record {
        originals = os;
        last = q.taker;
        valid = valid;
        run =
            subst₂ (λ ms ts. Run new_trade_id now taker.price 0 taker os ms ts q.taker)
              (sym (ap (λ x. x.makers) e ∙ c.makers_eq)) (sym (ap (λ x. x.trades) e ∙ c.trades_eq))
              c.run;
        picked = p;
        ended = ap (λ x. x.taker) e;
      }

  last_kept :
      (k : LimitRun)
      → (val r.taker.filled_quantity ≡ val (k.last).filled_quantity)
        × (r.taker.remaining_quantity ≡ (k.last).remaining_quantity)
        × (r.taker.status ≡ settled (k.last).status (is_positive (k.last).remaining_quantity))
  last_kept k = (
    ap (λ x. val x.filled_quantity) k.ended,
    ap (λ x. x.remaining_quantity) k.ended,
    ap (λ x. x.status) k.ended,
  )

  executed : Executed makers r.makers r.trades
  executed = let k = limit_run in (k.originals, Picked-Sublist (k.picked), Run-Fills (k.run))

  -- A successful match conserves quantities: the taker is filled by what the trades add up to and keeps the
  -- rest, and the makers that come back are, in their order, makers of the list that was passed in,
  -- each filled by the quantity of the trade at its place and with that much less remaining.
  pub match_limit_conserves :
      (val r.taker.filled_quantity ≡ val taker.filled_quantity + traded r.trades)
      × (val r.taker.remaining_quantity + traded r.trades ≡ val taker.remaining_quantity)
      × Executed makers r.makers r.trades
  match_limit_conserves =
      let k = limit_run in
      let (f, rem, _) = last_kept k in
      (f ∙ Run-filled (k.run), rw rem (Run-remaining (k.run)), executed)

  -- Every trade of a successful match is within the taker's limit, of a positive quantity and quote,
  -- and with another user where the taker names one; and it is made with a maker of the list that was
  -- passed in, at the price of that maker.
  pub match_limit-IsFair :
      All (IsFair taker.price taker) r.trades × Executed makers r.makers r.trades
  match_limit-IsFair = let k = limit_run in (Run-IsFair (k.run), executed)

  -- The final status: a taker with nothing left is filled; one with something left is open,
  -- partially filled or expired, and open only if it was not filled in part.
  pub match_limit-status :
      (is_positive r.taker.remaining_quantity ≡ false) × (r.taker.status ≡ Status.filled)
      ⊎ (is_positive r.taker.remaining_quantity ≡ true)
        × ((r.taker.status ≡ Status.expired)
            ⊎ (r.taker.status ≡ Status.partially_filled)
            ⊎ (r.trades ≡ []) × (r.taker.status ≡ Status.opened))
  match_limit-status =
      let k = limit_run in
      let (_, rem, st) = last_kept k in
      elim (Bool-cases (is_positive r.taker.remaining_quantity)) [
        | inr h ↦
            let done : is_positive (k.last).remaining_quantity ≡ false = rw (← rem) h in
            let e = Run-status_filled (k.run) (validate_taker-remains taker k.valid) done in
            inl (h, ground arith)
        | inl h ↦
            let more : is_positive (k.last).remaining_quantity ≡ true = rw (← rem) h in
            let e = Run-status_open (k.run) more in
            inr (h, settled_cases (k.last).status _ (rw more at st) e)
      ]

  -- Nothing is missed: if the taker keeps something and is not expired, then each maker of the list
  -- either was not eligible, or was traded with in its turn and used up.
  pub match_limit_exhausts :
      is_positive r.taker.remaining_quantity ≡ true
      → r.taker.status ≢ Status.expired
      → (os : List Order) × Chosen taker os makers
        × Fills os r.makers r.trades
        × All (λ m. (val m.remaining_quantity ≡ 0) × (m.status ≡ Status.filled)) r.makers
  match_limit_exhausts h n =
      let k = limit_run in
      let (_, rem, st) = last_kept k in
      let more : is_positive (k.last).remaining_quantity ≡ true = rw (← rem) h in
      (
        k.originals,
        Picked-Chosen (k.picked) more (λ e. n (rw (st, e) (ground arith))),
        Run-Fills (k.run),
        Run-All-filled (k.run) more,
      )
