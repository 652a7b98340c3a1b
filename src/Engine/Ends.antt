-- ===== src/Engine/Ends.antt =====
-- How a run ends: what the taker's status says, and which makers are used up.
use crosschainswap.Prelude.{
  ℕ, ◌≡◌, ◌⊎◌, inl, inr, refl, true, false, List, [], arith, All, Bool-cases,
}
use crosschainswap.Decimal.{val, is_positive}
use crosschainswap.Decimal.Laws.{min_cases}
use crosschainswap.Order.{Status, Order, Trade}
use crosschainswap.Engine.{filled_by}
use crosschainswap.Engine.Run.{Run, stop, expire, trade, match_qty}
use crosschainswap.Engine.Conservation.{Run-remaining}

module _ {new_trade_id : ℕ → ℕ} {now limit : ℕ} where
  -- Nothing happens to a taker that is filled.
  Run-done :
      {n : ℕ} {t t' : Order} {os ms : List Order} {ts : List Trade}
      → Run new_trade_id now limit n t os ms ts t'
      → is_positive t.remaining_quantity ≡ false
      → t' ≡ t
  Run-done (stop n t) h = refl
  Run-done (expire n t a) h = cc
  Run-done (trade m a b c r) h = cc

  -- A taker that began with something and ends with nothing is marked filled.
  pub Run-status_filled :
      {n : ℕ} {t t' : Order} {os ms : List Order} {ts : List Trade}
      → Run new_trade_id now limit n t os ms ts t'
      → is_positive t.remaining_quantity ≡ true
      → is_positive t'.remaining_quantity ≡ false
      → t'.status ≡ Status.filled
  unfolding filled_by
  Run-status_filled (stop n t) h k = cc
  Run-status_filled (expire n t a) h k = cc
  Run-status_filled (trade {t} m a b c r) h k =
      elim (Bool-cases (is_positive (filled_by now t (match_qty t m)).remaining_quantity)) [
        | inl more ↦ Run-status_filled r more k
        | inr all ↦ ground (arith, Run-done r all)
      ]

  -- The status of a taker after at least one trade, or after none.
  pub Run-status_open :
      {n : ℕ} {t t' : Order} {os ms : List Order} {ts : List Trade}
      → Run new_trade_id now limit n t os ms ts t'
      → is_positive t'.remaining_quantity ≡ true
      → (t'.status ≡ Status.expired)
        ⊎ (t'.status ≡ Status.partially_filled)
        ⊎ ((ts ≡ []) × (t'.status ≡ t.status))
  unfolding filled_by
  Run-status_open (stop n t) h = inr (inr (refl, refl))
  Run-status_open (expire n t a) h = inl refl
  Run-status_open (trade {t} m a b c r) h = elim (Run-status_open r h) [
    | inl e ↦ inl e
    | inr (inl e) ↦ inr (inl e)
    | inr (inr (none_left, e)) ↦ inr (inl (ground (arith, Run-remaining r)))
  ]

  -- If the taker ends with something left, every maker that it met is used up.
  pub Run-All-filled :
      {n : ℕ} {t t' : Order} {os ms : List Order} {ts : List Trade}
      → Run new_trade_id now limit n t os ms ts t'
      → is_positive t'.remaining_quantity ≡ true
      → All (λ m. (val m.remaining_quantity ≡ 0) × (m.status ≡ Status.filled)) ms
  unfolding filled_by
  Run-All-filled (stop n t) h = tt
  Run-All-filled (expire n t a) h = tt
  Run-All-filled (trade {t} m a b c r) h =
      let left = Run-remaining r in
      (ground (arith, min_cases t.remaining_quantity m.remaining_quantity), Run-All-filled r h)
