-- ===== src/Pairing/Codes.antt =====
-- The PINs and passkeys that internal/device/pairing.go makes.
use cat_tag.Common.{
  ℕ, zero, suc, ◌≤◌, ◌<◌, ℤ, pos, negsuc, to_ℕ, is_positive, ◌≡◌, refl, not, ◌&&◌, if◌then◌else◌,
  ltb, leb, length, All, arith,
}
use cat_tag.Pairing.{random_int, pin_digits, generate_pin, generate_passkey, validate_pin}

abbrev pub IsDigit : ℕ → Type 0
IsDigit c = (48 ≤ c) × (c ≤ 57)

length-pin_digits : (n : ℕ) (random : ℕ → ℕ) → length (pin_digits n random) ≡ n
unfolding pin_digits
length-pin_digits zero random = refl
length-pin_digits (suc n) random = ground (arith, length-pin_digits n random)

pin_digits-IsDigit : (n : ℕ) (random : ℕ → ℕ) → All IsDigit (pin_digits n random)
unfolding pin_digits random_int
pin_digits-IsDigit zero random = tt
pin_digits-IsDigit (suc n) random = ((omega arith, omega arith), pin_digits-IsDigit n random)

-- The PIN that is generated is of decimal digits, and `validatePIN` accepts it exactly if its
-- configured length is not 1, 2 or 3; a length that is not positive counts as 6.
pub validate_pin-generate_pin :
    (pin_length : ℤ) (random : ℕ → ℕ)
    → All IsDigit (generate_pin pin_length random)
      × (validate_pin (generate_pin pin_length random)
          ≡ not (is_positive pin_length && leb (to_ℕ pin_length) 3))
unfolding generate_pin validate_pin
validate_pin-generate_pin (pos n) random =
    let len = length-pin_digits (if ltb 0 n then n else 6) random in
    (pin_digits-IsDigit _ random, ground arith)
validate_pin-generate_pin (negsuc n) random =
    let len = length-pin_digits 6 random in (pin_digits-IsDigit 6 random, ground arith)

-- The passkey of a byte is the byte, so that it is below 256 and not any number of six digits.
pub generate_passkey-lt : (b : ℕ) → b < 256 → (generate_passkey b ≡ b) × (generate_passkey b < 256)
unfolding generate_passkey random_int
generate_passkey-lt b h = (omega arith, omega arith)
