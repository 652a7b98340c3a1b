-- ===== src/Decimal.antt =====
-- internal/core/decimal/decimal.go, on the values that the exchange keeps: amounts and prices that
-- are not negative and have at most 18 decimal places. A value is counted in units of 10⁻¹⁸.
-- An amount is an `Option`: `none` is the empty text, which `decimal.Parse` reads as 0.
pub mod Laws
pub mod Texts
use Prim.Native.Nat.{compare, Ordering}
use crosschainswap.Prelude.{
  ℕ, ◌+◌, ◌-◌, ◌*◌, ◌/◌, ◌^◌, Bool, Option, none, some, ltb, leb, if◌then◌else◌,
}

-- `decimal.Scale`
abbrev pub scale : ℕ
scale = 18

-- One, in units.
abbrev pub one : ℕ
one = 10 ^ 18

abbrev pub Decimal : Type 0
Decimal = Option ℕ

-- `decimal.Parse`
abbrev pub val : Decimal → ℕ
val none = 0
val (some n) = n

-- `decimal.Cmp(a, "0") > 0`
abbrev pub is_positive : Decimal → Bool
is_positive a = ltb 0 (val a)

-- `FloatString(18)` of a product rounds to the nearest unit, a half away from zero.
unfoldable pub mul_units : ℕ → ℕ → ℕ
mul_units a b = (a * b + one / 2) / one

unfoldable pub min : Decimal → Decimal → Decimal
min a b = if leb (val a) (val b) then a else b

abbrev pub add : Decimal → Decimal → Decimal
add a b = some (val a + val b)

-- `-` on ℕ stops at 0, as the floor does.
abbrev pub sub_floor_zero : Decimal → Decimal → Decimal
sub_floor_zero a b = some (val a - val b)

abbrev pub mul : Decimal → Decimal → Decimal
mul a b = some (mul_units (val a) (val b))
