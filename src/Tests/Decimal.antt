-- ===== src/Tests/Decimal.antt =====
-- decimal.go: `Trim` at concrete texts.
use crosschainswap.Prelude.{◌≡◌, refl, [], ◌∷◌, ◌++◌}
use crosschainswap.Decimal.Texts.{Text, zero_char, point_char, trim_right, trim, repeated}

-- "1" and "1.500"
abbrev one_text : Text
one_text = 49 ∷ []

abbrev one_and_a_half : Text
one_and_a_half = 49 ∷ point_char ∷ 53 ∷ repeated zero_char 2

trim-whole : trim (one_text ++ repeated zero_char 2) ≡ one_text
unfolding trim trim_right
trim-whole = refl

trim-decimal : trim one_and_a_half ≡ 49 ∷ point_char ∷ 53 ∷ []
unfolding trim trim_right
trim-decimal = refl

trim-zeros : trim (repeated zero_char 3) ≡ zero_char ∷ []
unfolding trim trim_right
trim-zeros = refl
