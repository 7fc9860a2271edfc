-- ===== src/Text.antt =====
-- Strings as lists of Unicode code points, with the operations of JavaScript's standard library
-- that the server uses on them.
pub mod Decimal
pub mod Iso
pub mod BigInt
pub mod Utf8
pub mod Utf8Reader
use Prim.Native.Char.{code}
use Prim.Native.String.{String}
use Prim.Native.String
use export_vault.Prelude.{
  ℕ, zero, suc, ◌-◌, ◌≡◌, ◌↔◌, ap, Bool, true, false, ◌&&◌, List, [], ◌∷◌, ◌++◌, arith, ◌==◌,
  ==_iff, length, replicate,
}

abbrev pub Text : Type 0
Text = List ℕ

-- The code points of a literal.
abbrev pub codes : String → Text
codes String.[] = []
codes (String.◌∷◌ c s) = code c ∷ codes s

-- a === b
unfoldable pub text_eq : Text → Text → Bool
text_eq [] [] = true
text_eq [] (d ∷ t) = false
text_eq (c ∷ s) [] = false
text_eq (c ∷ s) (d ∷ t) = c == d && text_eq s t

pub text_eq_iff : (s t : Text) → (text_eq s t ≡ true) ↔ (s ≡ t)
unfolding text_eq
text_eq_iff [] [] = ground arith
text_eq_iff [] (d ∷ t) = ground arith
text_eq_iff (c ∷ s) [] = ground arith
text_eq_iff (c ∷ s) (d ∷ t) = ground (arith, text_eq_iff s t)

-- s.padStart(width, fill), for a filler of one character
unfoldable pub pad_start : ℕ → ℕ → Text → Text
pad_start width fill s = replicate (width - length s) fill ++ s

-- parts.join(separator)
unfoldable pub join : Text → List Text → Text
join sep [] = []
join sep (s ∷ []) = s
join sep (s ∷ t ∷ ts) = s ++ (sep ++ join sep (t ∷ ts))
