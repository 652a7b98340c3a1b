-- ===== src/Exchange/Sequences/Rising.antt =====
-- The sequences of a market rise: each is above every one that is in use and every one that was
-- handed out before.
use crosschainswap.Prelude.{
  ℕ, ◌+◌, ◌%◌, ◌<◌, ◌≡◌, refl, ap, sym, ◌∙◌, true, false, List, [], ◌∷◌, some, ok, err, ◌==◌, arith,
  All, Bool-cases, inl, inr,
}
use crosschainswap.Prelude.Dict.{lookup, lookup-insert}
use crosschainswap.Order.{Order}
use crosschainswap.Exchange.{Tables, ExchangeError, pure, reads, modify, throw_if, ◌>>=◌}
use crosschainswap.Exchange.Keeps.{ended_ok, not_ok}
use crosschainswap.Exchange.ActiveOrders.{or_blank, rows_of}
use crosschainswap.Exchange.Sequences.{
  uint64, next_sequence, next_sequence-fresh, max_order_sequence, next_order_sequence,
  keep_sequence,
}

abbrev orders_of : Tables → List Order
orders_of t = rows_of (t.ledger).orders

abbrev handed_out : ℕ → Tables → ℕ
handed_out market t =
    next_sequence (max_order_sequence market (orders_of t)) (lookup market t.sequences)

at_blank :
    (market : ℕ) (t : Tables)
    → market == 0 ≡ true
    → next_order_sequence market t ≡ err ExchangeError.market_required
unfolding next_order_sequence throw_if ◌>>=◌
at_blank market t e = rw e refl

at_market :
    (market : ℕ) (t : Tables)
    → market == 0 ≡ false
    → next_order_sequence market t
      ≡ ok (handed_out market t, keep_sequence market (handed_out market t) t)
unfolding next_order_sequence reads modify throw_if pure ◌>>=◌
at_market market t e = rw e refl

-- What is handed out, and what is kept.
next_order_sequence-ok :
    (market : ℕ) (t : Tables) {seq : ℕ} {t' : Tables}
    → next_order_sequence market t ≡ ok (seq, t')
    → (seq ≡ handed_out market t) × (t' ≡ keep_sequence market (handed_out market t) t)
next_order_sequence-ok market t h = elim (Bool-cases (market == 0)) [
  | inl e ↦ absurd (not_ok (sym (at_blank market t e) ∙ h))
  | inr e ↦ ended_ok (sym (at_market market t e) ∙ h)
]

kept_row :
    (market seq : ℕ) (t : Tables)
    → lookup market (keep_sequence market seq t).sequences ≡ some ((seq + 1) % uint64)
kept_row market seq t = lookup-insert market market ((seq + 1) % uint64) t.sequences ∙ ground arith

next_sequence-above :
    (max a : ℕ)
    → max + 1 < uint64
    → a + 1 < uint64
    → a < next_sequence max (some ((a + 1) % uint64))
unfolding next_sequence
next_sequence-above max a h k = ground arith

max_order_sequence-All :
    (market max : ℕ) (os : List Order)
    → max_order_sequence market os < max
    → All (λ o. or_blank market o.market ≡ true → o.sequence_id < max) os
unfolding max_order_sequence
max_order_sequence-All market max [] h = tt
max_order_sequence-All market max (o ∷ os) h =
    ((λ k. ground arith), max_order_sequence-All market max os (ground arith))

module _ (market seq : ℕ) (t t' : Tables)
    (given : next_order_sequence market t ≡ ok (seq, t')) where
  -- The sequence is above that of every order of the market, as long as a `uint64` can be.
  pub next_order_sequence-fresh :
      max_order_sequence market (orders_of t) + 1 < uint64
      → All (λ o. or_blank market o.market ≡ true → o.sequence_id < seq) (orders_of t)
  next_order_sequence-fresh bound =
      let (e, _) = next_order_sequence-ok market t given in
      max_order_sequence-All market seq (orders_of t) (
        omega (
          arith,
          e,
          next_sequence-fresh (max_order_sequence market (orders_of t)) (lookup market t.sequences)
              bound,
        ))

module _ (market a b : ℕ) (t t₁ t₂ t₃ : Tables) (first : next_order_sequence market t ≡ ok (a, t₁))
    (second : next_order_sequence market t₂ ≡ ok (b, t₃))
    (row_kept : lookup market t₂.sequences ≡ lookup market t₁.sequences) where
  -- Two sequences that a market is given rise, whatever happened in between that left the market's
  -- row of next sequences alone, as long as the first, and what is in use, can be exceeded in `uint64`.
  pub next_order_sequence-rises :
      max_order_sequence market (orders_of t₂) + 1 < uint64 → a + 1 < uint64 → a < b
  next_order_sequence-rises bound room =
      let (e, k) = next_order_sequence-ok market t first in
      let (e', _) = next_order_sequence-ok market t₂ second in
      let row =
        row_kept
        ∙ ap (λ x. lookup market x.sequences) k
        ∙ kept_row market (handed_out market t) t in
      let above =
        next_sequence-above (max_order_sequence market (orders_of t₂)) (handed_out market t) bound
          (rw e at room) in
      rw (e, e', row) above
