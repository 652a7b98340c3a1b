-- ===== src/Orders/Rules/Stops.antt =====
-- Stop orders wait for a move of the price, and the band bounds how far a price is from the last one.
use native.Mathlib.Nat.{mul-le-mul_left}
use crosschainswap.Prelude.{
  ℕ, ◌+◌, ◌-◌, ◌*◌, ◌≤◌, ◌<◌, ◌≡◌, ◌≢◌, true, false, some, ok, err, arith, leb, ◌&&◌, ◌||◌, ◌==◌,
  ap, ◌⊎◌, inl, inr, Bool-cases, if◌then◌else◌,
}
use crosschainswap.Order.{Side, Order}
use crosschainswap.Orders.{OrderError}
use crosschainswap.Orders.Build.{is_stop_limit}
use crosschainswap.Orders.Rules.{stop_triggered, validate_stop_placement, validate_price_band}

-- A stop order that may be placed waits: it is not triggered at the price of the last trade, and a
-- price that triggers it is above that price for a buyer and below it for a seller.
validate_stop_placement-waits :
    (item : Order) (last p : ℕ)
    → is_stop_limit item.type ≡ true
    → last ≢ 0
    → validate_stop_placement (some last) item ≡ ok tt
    → stop_triggered item p ≡ true
    → (stop_triggered item last ≡ false)
      × ((item.side ≡ Side.buy) × (last < p) ⊎ (item.side ≡ Side.sell) × (p < last))
unfolding validate_stop_placement stop_triggered
validate_stop_placement-waits item last p t n h k = (ground arith, ground arith)

-- The lower end of a band, and its width.
low_end :
    (last bps : ℕ)
    → (bps ≤ 10000) × (last * (10000 - bps) + last * bps ≡ last * 10000)
      ⊎ (10000 < bps) × (last * (10000 - bps) ≡ 0) × (last * 10000 ≤ last * bps)
low_end last bps = elim (Bool-cases (leb bps 10000)) [
  | inl h ↦
      let e : (10000 - bps) + bps ≡ 10000 = ground arith in
      inl (ground arith, omega (arith, ap (λ k. last * k) e))
  | inr h ↦
      let e : 10000 - bps ≡ 0 = ground arith in
      inr (ground arith, omega (arith, ap (λ k. last * k) e), mul-le-mul_left last (ground arith))
]

-- With a last price, an order passes a band of `bps` basis points exactly if the band is zero, which
-- turns it off, or its price differs from the last price by at most that part of the last price.
pub validate_price_band-distance :
    (bps last : ℕ) (item : Order)
    → validate_price_band bps (some last) item ≡ (
        if bps == 0
          || leb (item.price * 10000) (last * 10000 + last * bps)
            && leb (last * 10000) (item.price * 10000 + last * bps)
        then ok tt
        else err OrderError.price_band_exceeded)
unfolding validate_price_band
validate_price_band-distance bps last item = elim (low_end last bps) [
  | inl (le, e) ↦ ground arith
  | inr (gt, z, e) ↦ ground arith
]
