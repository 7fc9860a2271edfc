-- ===== src/Text/Utf8.antt =====
-- `Buffer.from(text, 'utf8')` of Node: the bytes of a text of code points.
use export_vault.Prelude.{
  ℕ, ◌+◌, ◌/◌, ◌%◌, ◌≡◌, refl, List, [], ◌∷◌, ◌++◌, append_assoc, ltb, if◌then◌else◌,
}
use export_vault.Text.{Text, codes}

abbrev continuation : ℕ → ℕ
continuation c = 128 + c % 64

unfoldable pub encode : ℕ → List ℕ
encode c =
    if ltb c 0x80
    then c ∷ []
    else if ltb c 0x800
    then (192 + c / 64) ∷ continuation c ∷ []
    else if ltb c 0x10000
    then (224 + c / 4096) ∷ continuation (c / 64) ∷ continuation c ∷ []
    else (240 + c / 262144) ∷ continuation (c / 4096) ∷ continuation (c / 64) ∷ continuation c ∷ []

unfoldable pub utf8 : Text → List ℕ
unfolding encode
utf8 [] = []
utf8 (c ∷ s) = encode c ++ utf8 s

pub utf8-append : (s t : Text) → utf8 (s ++ t) ≡ utf8 s ++ utf8 t
unfolding utf8
utf8-append [] t = refl
utf8-append (c ∷ s) t = simp (utf8-append s t, append_assoc)

utf8_test : utf8 (codes "é€😀") ≡ 0xc3 ∷ 0xa9 ∷ 0xe2 ∷ 0x82 ∷ 0xac ∷ 0xf0 ∷ 0x9f ∷ 0x98 ∷ 0x80 ∷ []
unfolding utf8
utf8_test = refl
