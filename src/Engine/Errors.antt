-- ===== src/Engine/Errors.antt =====
-- When `MatchLimit` fails, and when it cannot.
use crosschainswap.Prelude.{
  ℕ, ◌*◌, ◌≤◌, ◌<◌, ◌≡◌, ◌⊎◌, inl, inr, refl, List, [], ◌∷◌, arith, All, ok, err, >>=-eq-err,
  ltb→lt, true, false,
}
use crosschainswap.Prelude.Sublist.{Sublist, Sublist-nil}
use crosschainswap.Decimal.{Decimal, val, one, mul_units, is_positive}
use crosschainswap.Decimal.Laws.{min-pos, min-le_left, min-le_right}
use crosschainswap.Order.{Order}
use crosschainswap.Engine.{
  MatchError, MatchResult, Round, eligible_maker, is_self_trade, filled_by, fill, proceed,
  match_limit, match_makers, validate_taker, settle_status,
}
use crosschainswap.Engine.Run.{match_qty, match_quote, eligible_maker-Eligible}
use crosschainswap.Engine.Refines.{Visited, visit-Visited, enough, own, skip, too_small, fills}
use crosschainswap.Engine.Limit.{start}

-- A positive quantity at a price of at least one has a positive quote.
pub mul_units-pos : (q p : ℕ) → 0 < q → one ≤ p → 0 < mul_units q p
unfolding mul_units
mul_units-pos q p h k = let le : one ≤ q * p = grind arith in omega arith

-- A trade that the taker and one of the makers could make, but for a quote that rounds to nothing.
pub record Dust (t : Order) (makers : List Order) : Type 0 where
  pub maker : Order
  pub quantity : ℕ
  pub listed : Sublist (maker ∷ []) makers
  pub eligible : eligible_maker t maker ≡ true
  pub positive : 0 < quantity
  pub wanted : quantity ≤ val t.remaining_quantity
  pub offered : quantity ≤ val maker.remaining_quantity
  pub worthless : mul_units quantity maker.price ≡ 0

Dust-leave : {t : Order} {makers : List Order} (m : Order) → Dust t makers → Dust t (m ∷ makers)
Dust-leave m d = record {
  maker = d.maker;
  quantity = d.quantity;
  listed = Sublist.leave m d.listed;
  eligible = d.eligible;
  positive = d.positive;
  wanted = d.wanted;
  offered = d.offered;
  worthless = d.worthless;
}

Dust-filled_by :
    (now : ℕ) (t : Order) (q : Decimal) (makers : List Order)
    → Dust (filled_by now t q) makers
    → Dust t makers
unfolding filled_by eligible_maker is_self_trade
Dust-filled_by now t q makers d = record {
  maker = d.maker;
  quantity = d.quantity;
  listed = d.listed;
  eligible = d.eligible;
  positive = d.positive;
  wanted = omega (arith, d.wanted);
  offered = d.offered;
  worthless = d.worthless;
}

Dust-first :
    (t m : Order) (makers : List Order)
    → is_positive t.remaining_quantity ≡ true
    → eligible_maker t m ≡ true
    → is_positive (match_quote t m) ≡ false
    → Dust t (m ∷ makers)
Dust-first t m makers a b c =
    let e = eligible_maker-Eligible t m b in
    record {
      maker = m;
      quantity = val (match_qty t m);
      listed = Sublist.keep m (Sublist-nil makers);
      eligible = b;
      positive = min-pos t.remaining_quantity m.remaining_quantity (ltb→lt 0 _ a) e.remains;
      wanted = min-le_left t.remaining_quantity m.remaining_quantity;
      offered = min-le_right t.remaining_quantity m.remaining_quantity;
      worthless = ground arith;
    }

module _ (new_trade_id : ℕ → ℕ) (now : ℕ) where
  proceed_total :
      (r : MatchResult) (m : Order) (makers : List Order)
      → one ≤ m.price
      → ((q : MatchResult) → (r' : MatchResult) × (match_makers new_trade_id now q makers ≡ ok r'))
      → (v : Round) → Visited new_trade_id now r m v
      → (r' : MatchResult) × (proceed v (λ q. match_makers new_trade_id now q makers) ≡ ok r')
  proceed_total r m makers p ih _ (enough a) = (_, refl)
  proceed_total r m makers p ih _ (own a b) = (_, refl)
  proceed_total r m makers p ih _ (skip a) = ih r
  proceed_total r m makers p ih _ (too_small a b c) =
      let e = eligible_maker-Eligible r.taker m b in
      let q = min-pos r.taker.remaining_quantity m.remaining_quantity (ltb→lt 0 _ a) e.remains in
      absurd (ground (arith, mul_units-pos (val (match_qty r.taker m)) m.price q p))
  proceed_total r m makers p ih _ (fills a b c) = ih _

  match_makers_total :
      (r : MatchResult) (makers : List Order)
      → All (λ m. one ≤ m.price) makers
      → (r' : MatchResult) × (match_makers new_trade_id now r makers ≡ ok r')
  unfolding match_makers
  match_makers_total r [] h = (r, refl)
  match_makers_total r (m ∷ makers) h =
      proceed_total r m makers h.0 (λ q. match_makers_total q makers h.1) _
        (visit-Visited new_trade_id now r m)

  -- What a loop that fails reports, and why.
  abbrev Fails : Order → List Order → MatchError → Type 0
  Fails t makers e = (e ≡ MatchError.quote_below_precision) × Dust t makers

  proceed-err :
      (r : MatchResult) (m : Order) (makers : List Order) (e : MatchError)
      → ((q : MatchResult)
          → match_makers new_trade_id now q makers ≡ err e
          → Fails q.taker makers e)
      → (v : Round) → Visited new_trade_id now r m v
      → proceed v (λ q. match_makers new_trade_id now q makers) ≡ err e
      → Fails r.taker (m ∷ makers) e
  unfolding fill
  proceed-err r m makers e ih _ (enough a) h = cc
  proceed-err r m makers e ih _ (own a b) h = cc
  proceed-err r m makers e ih _ (skip a) h = let (same, d) = ih r h in (same, Dust-leave m d)
  proceed-err r m makers e ih _ (too_small a b c) h = (cc, Dust-first r.taker m makers a b c)
  proceed-err r m makers e ih _ (fills a b c) h =
      let (same, d) = ih _ h in
      (same, Dust-leave m (Dust-filled_by now r.taker (match_qty r.taker m) makers d))

  match_makers-err :
      (r : MatchResult) (makers : List Order) (e : MatchError)
      → match_makers new_trade_id now r makers ≡ err e
      → Fails r.taker makers e
  unfolding match_makers
  match_makers-err r [] e h = cc
  match_makers-err r (m ∷ makers) e h =
      proceed-err r m makers e (λ q. match_makers-err q makers e) _
        (visit-Visited new_trade_id now r m) h

  -- A valid taker against makers that cost at least one each is always matched.
  pub match_limit_total :
      (taker : Order) (makers : List Order)
      → validate_taker taker ≡ ok tt
      → All (λ m. one ≤ m.price) makers
      → (r : MatchResult) × (match_limit new_trade_id now taker makers ≡ ok r)
  unfolding match_limit
  match_limit_total taker makers v h =
      let (q, e) = match_makers_total (start taker) makers h in (settle_status q, rw (v, e))

  -- A call fails only on a taker that is not valid, with the error of its validation, or with
  -- `quote_below_precision` where the list has a maker that the taker may trade with, and some positive
  -- quantity that both have rounds to a quote of nothing at the price of that maker.
  pub match_limit-err :
      (taker : Order) (makers : List Order) (e : MatchError)
      → match_limit new_trade_id now taker makers ≡ err e
      → (validate_taker taker ≡ err e) ⊎ (e ≡ MatchError.quote_below_precision) × Dust taker makers
  unfolding match_limit
  match_limit-err taker makers e h = elim (>>=-eq-err (validate_taker taker) _ h) [
    | inl v ↦ inl v
    | inr (_, _, k) ↦ elim (>>=-eq-err (match_makers new_trade_id now (start taker) makers) _ k) [
      | inl m ↦ inr (match_makers-err (start taker) makers e m)
      | inr (_, _, impossible) ↦ cc
    ]
  ]
