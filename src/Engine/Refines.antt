-- ===== src/Engine/Refines.antt =====
-- engine.go carries out a run: `MatchLimit` goes through the makers in order, trades with each one
-- that is eligible, and stops where the taker is filled or meets an order of its own user.
use crosschainswap.Prelude.{
  ok, subst, ap, ℕ, ◌≡◌, inl, inr, ◌⊎◌, true, false, ◌&&◌, List, [], ◌∷◌, arith, Bool-cases,
}
use crosschainswap.Decimal.{Decimal, is_positive}
use crosschainswap.Decimal.Laws.{min-pos}
use crosschainswap.Order.{Status, Order}
use crosschainswap.Engine.{
  MatchError, MatchResult, Round, proceed, match_makers, filled_by, visit, fill, expire_taker,
  eligible_maker, is_self_trade, crosses_price,
}
use crosschainswap.Engine.Carried.{Carried, Carried-stop, Carried-expire, Carried-fill}
use crosschainswap.Engine.Run.{match_qty, match_quote, eligible_maker-Eligible}

-- How a run chose its originals from the list: a maker that was passed over was not eligible for the
-- taker `t`, and the list was left early only when the taker ended, as `t'`, filled or expired.
pub data Picked (t t' : Order) : List Order → List Order → Type 0 where
  finished : Picked t t' [] []
  halted :
      (ms : List Order)
      → (is_positive t'.remaining_quantity ≡ false) ⊎ (t'.status ≡ Status.expired)
      → Picked t t' [] ms
  pass :
      {os ms : List Order} (m : Order)
      → eligible_maker t m ≡ false
      → Picked t t' os ms
      → Picked t t' os (m ∷ ms)
  pick :
      {os ms : List Order} (m : Order)
      → eligible_maker t m ≡ true
      → Picked t t' os ms
      → Picked t t' (m ∷ os) (m ∷ ms)

-- The parts of an order that `eligible_maker` reads are the same after a fill.
Picked-filled_by :
    (now : ℕ) (q : Decimal) (t t' : Order) {os ms : List Order}
    → Picked (filled_by now t q) t' os ms
    → Picked t t' os ms
unfolding filled_by eligible_maker is_self_trade
Picked-filled_by now q t t' finished = finished
Picked-filled_by now q t t' (halted ms h) = halted ms h
Picked-filled_by now q t t' (pass m h p) = pass m h (Picked-filled_by now q t t' p)
Picked-filled_by now q t t' (pick m h p) = pick m h (Picked-filled_by now q t t' p)

expired_taker :
    (now : ℕ) (r r' : MatchResult) → r' ≡ expire_taker now r → r'.taker.status ≡ Status.expired
unfolding expire_taker
expired_taker now r r' e = ap (λ q. q.taker.status) e

module _ (new_trade_id : ℕ → ℕ) (now : ℕ) where
  -- The outcomes of a round, each with the tests that lead to it.
  pub data Visited (r : MatchResult) (m : Order) : Round → Type 0 where
    enough : is_positive r.taker.remaining_quantity ≡ false → Visited r m (Round.leave r)
    own :
        is_positive r.taker.remaining_quantity ≡ true
        → is_self_trade r.taker m ≡ true
        → Visited r m (Round.leave (expire_taker now r))
    skip : eligible_maker r.taker m ≡ false → Visited r m (Round.next r)
    too_small :
        is_positive r.taker.remaining_quantity ≡ true
        → eligible_maker r.taker m ≡ true
        → is_positive (match_quote r.taker m) ≡ false
        → Visited r m (Round.fail MatchError.quote_below_precision)
    fills :
        is_positive r.taker.remaining_quantity ≡ true
        → eligible_maker r.taker m ≡ true
        → is_positive (match_quote r.taker m) ≡ true
        → Visited r m
            (Round.next (fill new_trade_id now r m (match_qty r.taker m) (match_quote r.taker m)))

  pub visit-Visited : (r : MatchResult) (m : Order) → Visited r m (visit new_trade_id now r m)
  unfolding visit
  visit-Visited r m = elim (Bool-cases (is_positive r.taker.remaining_quantity)) [
    | inr a ↦ rw a (enough a)
    | inl a ↦ elim (Bool-cases (eligible_maker r.taker m)) [
      | inl b ↦
          let e = eligible_maker-Eligible r.taker m b in
          let c : is_positive (match_qty r.taker m) ≡ true =
            ground (arith, min-pos r.taker.remaining_quantity m.remaining_quantity) in
          elim (Bool-cases (is_positive (match_quote r.taker m))) [
            | inl d ↦ rw (a, b, c, d) (fills a b d)
            | inr d ↦ rw (a, b, c, d) (too_small a b d)
          ]
      | inr b ↦ elim (Bool-cases (is_self_trade r.taker m && crosses_price r.taker m)) [
        | inl c ↦ rw (a, b, c) (own a (ground arith))
        | inr c ↦ rw (a, b, c) (skip b)
      ]
    ]
  ]

  abbrev pub Picks : ℕ → MatchResult → List Order → MatchResult → Type 0
  Picks limit r makers r' =
      (os : List Order) × Picked r.taker r'.taker os makers × Carried new_trade_id now limit r os r'

  proceed-Picks :
      (r : MatchResult) (m : Order) (makers : List Order) (r' : MatchResult)
      → ((q : MatchResult)
          → match_makers new_trade_id now q makers ≡ ok r'
          → Picks q.taker.price q makers r')
      → (v : Round) → Visited r m v
      → proceed v (λ q. match_makers new_trade_id now q makers) ≡ ok r'
      → Picks r.taker.price r (m ∷ makers) r'
  unfolding fill filled_by
  proceed-Picks r m makers r' ih _ (enough a) e = (
    [],
    halted _ (inl (cc a)),
    subst (Carried new_trade_id now r.taker.price r []) (cc) (Carried-stop _ _ _ r),
  )
  proceed-Picks r m makers r' ih _ (own a b) e = (
    [],
    halted _ (inr (expired_taker now r r' (cc))),
    subst (Carried new_trade_id now r.taker.price r []) (cc)
        (Carried-expire new_trade_id now _ r a),
  )
  proceed-Picks r m makers r' ih _ (skip b) e = let (os, p, c) = ih r e in (os, pass m b p, c)
  proceed-Picks r m makers r' ih _ (too_small a b d) e = cc
  proceed-Picks r m makers r' ih _ (fills a b d) e =
      let (os, p, c) = ih _ e in
      (
        m ∷ os,
        pick m b (Picked-filled_by now (match_qty r.taker m) _ _ p),
        Carried-fill _ _ _ r m os r' a b d c,
      )

  pub match_makers-Picks :
      (r : MatchResult) (makers : List Order) (r' : MatchResult)
      → match_makers new_trade_id now r makers ≡ ok r'
      → Picks r.taker.price r makers r'
  unfolding match_makers
  match_makers-Picks r [] r' e = (
    [],
    finished,
    subst (Carried new_trade_id now r.taker.price r []) (cc) (Carried-stop _ _ _ r),
  )
  match_makers-Picks r (m ∷ makers) r' e =
      proceed-Picks r m makers r' (λ q. match_makers-Picks q makers r') _ (visit-Visited r m) e
