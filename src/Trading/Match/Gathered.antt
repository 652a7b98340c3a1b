-- ===== src/Trading/Match/Gathered.antt =====
-- What a round of `match` adds to the match so far: its trades and makers, and the taker as it is then.
use crosschainswap.Prelude.{
  ℕ, ◌+◌, ◌≡◌, ◌⊎◌, inl, inr, refl, sym, List, [], ◌∷◌, ◌++◌, arith, List-cases, Bool-cases,
}
use mathlib.Core.List.{append-nil}
use crosschainswap.Order.{Order, Trade}
use crosschainswap.Engine.{MatchResult}
use crosschainswap.Engine.Run.{Fills, traded}
use crosschainswap.Orders.Rules.{is_expired}
use crosschainswap.Trading.Match.{Matching, after_round}

pub traded-append : (xs ys : List Trade) → traded (xs ++ ys) ≡ traded xs + traded ys
traded-append [] ys = omega arith
traded-append (x ∷ xs) ys = omega (arith, traded-append xs ys)

abbrev pub at_price : ℕ → Order → Order
at_price p o = record o { price = p }

-- Where a round traded or expired the taker, it is the match's taker at its own price.
pub after_taker :
    (m : Matching) (r : MatchResult)
    → ((after_round m r).0.taker ≡ at_price m.taker.price r.taker)
      ⊎ ((after_round m r).0.taker ≡ m.taker) × (r.trades ≡ [])
unfolding after_round
after_taker m r = elim (List-cases r.trades) [
  | inr (x, xs, e) ↦ inl (rw e refl)
  | inl e ↦ elim (Bool-cases (is_expired r.taker.status)) [
    | inl k ↦ inl (rw (e, k) refl)
    | inr k ↦ inr (rw (e, k) (refl, refl))
  ]
]

pub after_trades :
    (m : Matching) (r : MatchResult) → (after_round m r).0.trades ≡ m.trades ++ r.trades
unfolding after_round
after_trades m r = elim (List-cases r.trades) [
  | inr (x, xs, e) ↦ rw e refl
  | inl e ↦ elim (Bool-cases (is_expired r.taker.status)) [
    | inl k ↦ rw (e, k) (sym (append-nil m.trades))
    | inr k ↦ rw (e, k) (sym (append-nil m.trades))
  ]
]

pub after_makers :
    (m : Matching) (r : MatchResult) → (after_round m r).0.makers ≡ m.makers ++ r.makers
unfolding after_round
after_makers m r = elim (List-cases r.trades) [
  | inr (x, xs, e) ↦ rw e refl
  | inl e ↦ elim (Bool-cases (is_expired r.taker.status)) [
    | inl k ↦ rw (e, k) refl
    | inr k ↦ rw (e, k) refl
  ]
]

pub Fills-append :
    (os ms : List Order) (ts : List Trade) (os' ms' : List Order) (ts' : List Trade)
    → Fills os ms ts
    → Fills os' ms' ts'
    → Fills (os ++ os') (ms ++ ms') (ts ++ ts')
Fills-append [] [] [] os' ms' ts' f g = g
Fills-append [] [] (x ∷ ts) os' ms' ts' f g = absurd f
Fills-append [] (m ∷ ms) ts os' ms' ts' f g = absurd f
Fills-append (o ∷ os) [] ts os' ms' ts' f g = absurd f
Fills-append (o ∷ os) (m ∷ ms) [] os' ms' ts' f g = absurd f
Fills-append (o ∷ os) (m ∷ ms) (x ∷ ts) os' ms' ts' f g =
    (f.0, Fills-append os ms ts os' ms' ts' f.1 g)
