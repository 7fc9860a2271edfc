-- ===== src/Text/Decimal.antt =====
-- Decimal printing of a bigint (`toString`) and what reading it back gives.
use export_vault.Prelude.{
  ℕ, zero, suc, ◌+◌, ◌-◌, ◌*◌, ◌/◌, ◌%◌, ◌≤◌, ◌<◌, ◌≡◌, ◌≢◌, refl, Bool, ◌&&◌, Option, none, some,
  List, [], ◌∷◌, arith, ltb, leb, if◌then◌else◌, All,
}

-- The digits of `n` before `out`; `fuel` bounds the number of digits.
print_digits : ℕ → ℕ → List ℕ → List ℕ
print_digits zero n out = out
print_digits (suc f) n out =
    let more = print_digits f (n / 10) ((b'0' + n % 10) ∷ out) in
    if ltb n 10 then (b'0' + n) ∷ out else more

-- n.toString(); a number has at most as many digits as its value plus one
unfoldable pub to_string : ℕ → List ℕ
unfolding print_digits
to_string n = print_digits (suc n) n []

abbrev pub is_digit : ℕ → Bool
is_digit c = leb b'0' c && leb c b'9'

-- The number that decimal digits spell behind `n`.
unfoldable pub read_digits : ℕ → List ℕ → Option ℕ
read_digits n [] = some n
read_digits n (c ∷ s) = if is_digit c then read_digits (n * 10 + (c - b'0')) s else none

read_digits-print_digits :
    (f n : ℕ) (out : List ℕ) → n < f → read_digits 0 (print_digits f n out) ≡ read_digits n out
unfolding read_digits print_digits
read_digits-print_digits zero n out h = absurd (omega arith)
read_digits-print_digits (suc f) n out h =
    ground (arith, read_digits-print_digits f (n / 10) ((b'0' + n % 10) ∷ out))

-- Every number is read back from its decimal print.
pub read_digits-to_string : (n : ℕ) → read_digits 0 (to_string n) ≡ some n
unfolding to_string read_digits
read_digits-to_string n = read_digits-print_digits (suc n) n [] (omega arith)

abbrev pub IsDigit : ℕ → Type 0
IsDigit c = (b'0' ≤ c) × (c ≤ b'9')

print_digits-IsDigit :
    (f n : ℕ) (out : List ℕ) → All IsDigit out → All IsDigit (print_digits f n out)
unfolding print_digits
print_digits-IsDigit zero n out h = h
print_digits-IsDigit (suc f) n out h =
    ground (arith, print_digits-IsDigit f (n / 10) ((b'0' + n % 10) ∷ out))

pub to_string-IsDigit : (n : ℕ) → All IsDigit (to_string n)
unfolding to_string
to_string-IsDigit n = print_digits-IsDigit (suc n) n [] tt

print_digits-ne-nil : (f n : ℕ) (out : List ℕ) → 0 < f → print_digits f n out ≢ []
unfolding print_digits
print_digits-ne-nil zero n out h = absurd (omega arith)
print_digits-ne-nil (suc zero) n out h = ground arith
print_digits-ne-nil (suc (suc f)) n out h =
    ground (arith, print_digits-ne-nil (suc f) (n / 10) ((b'0' + n % 10) ∷ out))

pub to_string-ne-nil : (n : ℕ) → to_string n ≢ []
unfolding to_string
to_string-ne-nil n = print_digits-ne-nil (suc n) n [] (omega arith)

to_string_tests : (to_string 0 ≡ b'0' ∷ []) × (to_string 407 ≡ b'4' ∷ b'0' ∷ b'7' ∷ [])
unfolding to_string
to_string_tests = (refl, refl)
