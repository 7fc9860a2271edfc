-- ===== src/Text/Utf8Reader.antt =====
-- A reader of UTF-8, as an independent description that the encoder is held against: a lead byte
-- says how many continuation bytes follow, and each of these carries six bits.
use export_vault.Prelude.{
  ℕ, zero, suc, ◌+◌, ◌-◌, ◌*◌, ◌/◌, ◌%◌, ◌≡◌, ◌∙◌, refl, ap, Bool-cases, inl, inr, List, [], ◌∷◌,
  ◌++◌, arith, ltb, if◌then◌else◌,
}
use export_vault.Text.{Text}
use export_vault.Text.Utf8.{encode, utf8}

-- How many bytes follow a lead byte, and the bits that it carries itself.
abbrev more : ℕ → ℕ
more b = if ltb b 128 then 0 else if ltb b 224 then 1 else if ltb b 240 then 2 else 3

abbrev payload : ℕ → ℕ
payload b =
    if ltb b 128 then 0 else if ltb b 224 then b - 192 else if ltb b 240 then b - 224 else b - 240

unfoldable pub decode_from : ℕ → ℕ → List ℕ → Text
decode_from n bits [] = []
decode_from zero bits (b ∷ s) =
    let rest = decode_from (more b) (payload b) s in if ltb b 128 then b ∷ rest else rest
decode_from (suc zero) bits (b ∷ s) = (bits * 64 + (b - 128)) ∷ decode_from 0 0 s
decode_from (suc (suc n)) bits (b ∷ s) = decode_from (suc n) (bits * 64 + (b - 128)) s

unfoldable pub decode : List ℕ → Text
unfolding decode_from
decode bytes = decode_from 0 0 bytes

decode_from-lead :
    (n bits b : ℕ) (s : List ℕ)
    → more b ≡ suc n
    → payload b ≡ bits
    → decode_from 0 0 (b ∷ s) ≡ decode_from (suc n) bits s
unfolding decode_from
decode_from-lead n bits b s follow carry = ground arith

decode_from-encode : (c : ℕ) (s : List ℕ) → decode_from 0 0 (encode c ++ s) ≡ c ∷ decode_from 0 0 s
unfolding decode_from encode
decode_from-encode c s = elim (Bool-cases (ltb c 0x80)) [
  | inl one ↦ rw one (rw one refl)
  | inr not_one ↦ elim (Bool-cases (ltb c 0x800)) [
    | inl two ↦
        let back : c / 64 * 64 + (128 + c % 64 - 128) ≡ c = omega arith in
        rw (not_one, two)
          (decode_from-lead 0 (c / 64) (192 + c / 64) ((128 + c % 64) ∷ s) (ground arith)
              (ground arith)
            ∙ ap (λ k. k ∷ decode_from 0 0 s) back)
    | inr not_two ↦ elim (Bool-cases (ltb c 0x10000)) [
      | inl three ↦
          let back : (c / 4096 * 64 + (128 + c / 64 % 64 - 128)) * 64 + (128 + c % 64 - 128) ≡ c =
            omega arith in
          rw (not_one, not_two, three)
            (decode_from-lead 1 (c / 4096) (224 + c / 4096)
                ((128 + c / 64 % 64) ∷ (128 + c % 64) ∷ s) (ground arith) (ground arith)
              ∙ ap (λ k. k ∷ decode_from 0 0 s) back)
      | inr four ↦
          let back : ((c / 262144 * 64 + (128 + c / 4096 % 64 - 128)) * 64
                    + (128 + c / 64 % 64 - 128))
                  * 64
                + (128 + c % 64 - 128)
              ≡ c =
            omega arith in
          rw (not_one, not_two, four)
            (decode_from-lead 2 (c / 262144) (240 + c / 262144)
                ((128 + c / 4096 % 64) ∷ (128 + c / 64 % 64) ∷ (128 + c % 64) ∷ s) (ground arith)
                (ground arith)
              ∙ ap (λ k. k ∷ decode_from 0 0 s) back)
    ]
  ]
]

-- The bytes of a text are read back as that text.
pub decode-utf8 : (s : Text) → decode (utf8 s) ≡ s
unfolding decode utf8 decode_from
decode-utf8 [] = refl
decode-utf8 (c ∷ s) = decode_from-encode c (utf8 s) ∙ ap (◌∷◌ c) (decode-utf8 s)
