-- ===== src/Decimal/Texts.antt =====
-- internal/core/decimal/decimal.go: `Trim` on the text of a number. A text is the list of its
-- characters' codes.
use crosschainswap.Prelude.{
  ℕ, zero, suc, ◌+◌, ◌/◌, ◌%◌, ◌≡◌, refl, Bool, true, false, List, [], ◌∷◌, ◌++◌, ◌==◌, ◌&&◌, ◌||◌,
  if◌then◌else◌, ==_refl,
}
use crosschainswap.Decimal.{scale, one}

abbrev pub Text : Type 0
Text = List ℕ

-- "0", "." and "-"
abbrev pub zero_char : ℕ
zero_char = 48

abbrev pub point_char : ℕ
point_char = 46

abbrev pub minus_char : ℕ
minus_char = 45

abbrev is_empty : Text → Bool
is_empty [] = true
is_empty (x ∷ xs) = false

abbrev is_minus_zero : Text → Bool
is_minus_zero [] = false
is_minus_zero (x ∷ []) = false
is_minus_zero (x ∷ y ∷ []) = x == minus_char && y == zero_char
is_minus_zero (x ∷ y ∷ z ∷ zs) = false

-- `strings.TrimRight` with one character to cut off.
unfoldable pub trim_right : ℕ → Text → Text
trim_right c [] = []
trim_right c (x ∷ xs) =
    let rest = trim_right c xs in if is_empty rest && x == c then [] else x ∷ rest

-- `decimal.Trim`
unfoldable pub trim : Text → Text
trim value =
    let cut = trim_right point_char (trim_right zero_char value) in
    if is_empty cut || is_minus_zero cut then zero_char ∷ [] else cut

-- The digits of a number before those of `tail`; as many rounds as `fuel` at most.
unfoldable pub digits : ℕ → ℕ → Text → Text
digits zero n tail = tail
digits (suc fuel) n tail =
    let shown = (zero_char + n % 10) ∷ tail in
    let more = digits fuel (n / 10) shown in if n / 10 == 0 then shown else more

-- The last `places` digits of a number before `tail`.
unfoldable pub places : ℕ → ℕ → Text → Text
places zero n tail = tail
places (suc k) n tail = places k (n / 10) ((zero_char + n % 10) ∷ tail)

-- `FloatString(Scale)` of a value in units.
unfoldable pub float_string : ℕ → Text
unfolding digits places
float_string n = digits (suc (n / one)) (n / one) (point_char ∷ places scale (n % one) [])

-- `decimal.String`
unfoldable pub decimal_string : ℕ → Text
unfolding float_string trim
decimal_string n = trim (float_string n)

-- A character a number of times.
abbrev pub repeated : ℕ → ℕ → Text
repeated c zero = []
repeated c (suc n) = c ∷ repeated c n

trim_right-repeated : (c n : ℕ) → trim_right c (repeated c n) ≡ []
unfolding trim_right
trim_right-repeated c zero = refl
trim_right-repeated c (suc n) = rw (trim_right-repeated c n, ==_refl c) refl

trim_right-append :
    (c : ℕ) (value : Text) (n : ℕ) → trim_right c (value ++ repeated c n) ≡ trim_right c value
unfolding trim_right
trim_right-append c [] n = trim_right-repeated c n
trim_right-append c (x ∷ xs) n = rw (trim_right-append c xs n) refl

-- Zeros at the end of a text make no difference to what `Trim` makes of it, whether or not the text
-- has a decimal point.
trim-append_zeros : (value : Text) (n : ℕ) → trim (value ++ repeated zero_char n) ≡ trim value
unfolding trim
trim-append_zeros value n = rw (trim_right-append zero_char value n) refl
