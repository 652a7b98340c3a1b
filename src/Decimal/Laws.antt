-- ===== src/Decimal/Laws.antt =====
-- Laws of the rounded product and of the minimum.
use native.Mathlib.Nat.{mul_comm}
use crosschainswap.Prelude.{ℕ, ◌+◌, ◌≤◌, ◌<◌, ◌≡◌, ◌⊎◌, arith}
use crosschainswap.Decimal.{Decimal, val, mul_units, min}

pub min-le_left : (a b : Decimal) → val (min a b) ≤ val a
unfolding min
min-le_left a b = ground arith

pub min-le_right : (a b : Decimal) → val (min a b) ≤ val b
unfolding min
min-le_right a b = ground arith

pub min_cases : (a b : Decimal) → (val (min a b) ≡ val a) ⊎ (val (min a b) ≡ val b)
unfolding min
min_cases a b = ground arith

pub min-pos : (a b : Decimal) → 0 < val a → 0 < val b → 0 < val (min a b)
unfolding min
min-pos a b h k = ground arith

pub mul_units_comm : (a b : ℕ) → mul_units a b ≡ mul_units b a
unfolding mul_units
mul_units_comm a b = rw (mul_comm a b)

-- Rounding each part rounds the whole up by at most a unit.
pub mul_units_split :
    (a b p : ℕ)
    → (mul_units (a + b) p ≤ mul_units a p + mul_units b p + 1)
      × (mul_units a p + mul_units b p ≤ mul_units (a + b) p + 1)
unfolding mul_units
mul_units_split a b p = omega arith
