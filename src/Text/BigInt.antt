-- ===== src/Text/BigInt.antt =====
-- `BigInt(text)` of the language, which throws (`none`) on what is no integer literal. White space
-- at both ends is dropped, and a text with nothing else in it is 0.
use export_vault.Prelude.{
  ℕ, ◌+◌, ◌-◌, ◌*◌, ◌≡◌, ◌≢◌, refl, sym, subst, Bool, ◌||◌, ◌&&◌, Option, none, some, [], ◌∷◌,
  arith, leb, ltb, ◌==◌, if◌then◌else◌, All,
}
use export_vault.Prelude.Int.{ℤ, pos, negsuc}
use export_vault.Text.{Text, codes}
use export_vault.Text.Decimal.{
  IsDigit, is_digit, read_digits, read_digits-to_string, to_string, to_string-IsDigit,
  to_string-ne-nil,
}

is_space : ℕ → Bool
is_space c =
    leb 9 c && leb c 13
    || (c == 32
        || (c == 0xa0
            || (c == 0x1680
                || (leb 0x2000 c && leb c 0x200a
                    || (c == 0x2028
                        || (c == 0x2029
                            || (c == 0x202f || (c == 0x205f || (c == 0x3000 || c == 0xfeff)))))))))

trim_start : Text → Text
trim_start [] = []
trim_start (c ∷ s) = let rest = trim_start s in if is_space c then rest else c ∷ s

-- `c` in front of what is left of the text behind it
before : ℕ → Text → Text
before c [] = if is_space c then [] else c ∷ []
before c (d ∷ s) = c ∷ d ∷ s

trim_end : Text → Text
trim_end [] = []
trim_end (c ∷ s) = before c (trim_end s)

-- s.trim()
unfoldable pub trim : Text → Text
unfolding is_space trim_start before trim_end
trim s = trim_end (trim_start s)

digit_value : ℕ → ℕ
digit_value c =
    if is_digit c
    then c - b'0'
    else if leb b'a' c && leb c b'f'
    then c - b'a' + 10
    else if leb b'A' c && leb c b'F'
    then c - b'A' + 10
    else 16

read_radix : ℕ → ℕ → Text → Option ℕ
read_radix radix n [] = some n
read_radix radix n (c ∷ s) =
    let d = digit_value c in if ltb d radix then read_radix radix (n * radix + d) s else none

signed : Bool → ℕ → ℤ
signed negative n = if negative && ltb 0 n then negsuc (n - 1) else pos n

-- one digit or more
decimal : Bool → Text → Option ℤ
decimal negative [] = none
decimal negative (c ∷ s) = elim (read_digits 0 (c ∷ s)) [
  | none ↦ none
  | some n ↦ some (signed negative n)
]

with_radix : ℕ → Text → Option ℤ
with_radix radix [] = none
with_radix radix (c ∷ s) = elim (read_radix radix 0 (c ∷ s)) [ none ↦ none | some n ↦ some (pos n) ]

literal : Text → Option ℤ
literal [] = some (pos 0)
literal (c ∷ []) = decimal (ltb 1 0) (c ∷ [])
literal (c ∷ d ∷ s) =
    if c == b'0' && (d == b'x' || d == b'X')
    then with_radix 16 s
    else if c == b'0' && (d == b'o' || d == b'O')
    then with_radix 8 s
    else if c == b'0' && (d == b'b' || d == b'B')
    then with_radix 2 s
    else if c == b'-'
    then decimal (ltb 0 1) (d ∷ s)
    else if c == b'+'
    then decimal (ltb 1 0) (d ∷ s)
    else decimal (ltb 1 0) (c ∷ d ∷ s)

unfoldable pub big_int : Text → Option ℤ
unfolding trim read_digits digit_value read_radix signed decimal with_radix literal
big_int s = literal (trim s)

big_int_tests :
    (big_int (codes " 42 ") ≡ some (pos 42))
    × (big_int (codes "-7") ≡ some (negsuc 6))
    × (big_int (codes "0xFf") ≡ some (pos 255))
    × (big_int (codes "1_0") ≡ none)
    × (big_int (codes "1.0") ≡ none)
    × (big_int [] ≡ some (pos 0))
unfolding big_int
big_int_tests = (refl, refl, refl, refl, refl, refl)

trim_end_of_IsDigit : (s : Text) → All IsDigit s → trim_end s ≡ s
unfolding trim_end before is_space
trim_end_of_IsDigit [] h = refl
trim_end_of_IsDigit (c ∷ []) (d, h) = ground arith
trim_end_of_IsDigit (c ∷ e ∷ s) (d, h) = ground (arith, trim_end_of_IsDigit (e ∷ s) h)

pub trim_of_IsDigit : (s : Text) → All IsDigit s → trim s ≡ s
unfolding trim
trim_of_IsDigit [] h = refl
trim_of_IsDigit (c ∷ s) (d, h) = ground (arith, trim_end_of_IsDigit (c ∷ s) (d, h))

literal_of_IsDigit :
    (s : Text) (n : ℕ)
    → s ≢ []
    → All IsDigit s
    → read_digits 0 s ≡ some n
    → literal s ≡ some (pos n)
unfolding literal decimal signed
literal_of_IsDigit [] n ne h e = absurd (ne refl)
literal_of_IsDigit (c ∷ []) n ne h e = ground arith
literal_of_IsDigit (c ∷ d ∷ s) n ne (hc, (hd, h)) e = ground arith

-- The decimal print of a number is read as that number.
pub big_int-to_string : (n : ℕ) → big_int (to_string n) ≡ some (pos n)
unfolding big_int
big_int-to_string n =
    subst (λ t. literal t ≡ some (pos n))
      (sym (trim_of_IsDigit (to_string n) (to_string-IsDigit n)))
      (literal_of_IsDigit (to_string n) n (to_string-ne-nil n) (to_string-IsDigit n)
        (read_digits-to_string n))
