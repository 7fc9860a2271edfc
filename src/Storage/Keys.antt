-- ===== src/Storage/Keys.antt =====
-- The keys of an export's objects (server/src/services/storage.service.ts).
use export_vault.Prelude.{
  ℕ, zero, suc, ◌+◌, ◌*◌, ◌-◌, ◌≡◌, ◌≢◌, refl, sym, ap, ◌∙◌, some, List, [], ◌∷◌, ◌++◌, arith,
  if◌then◌else◌, All, replicate, append_assoc,
}
use mathlib.Core.Option.{some_inj}
use export_vault.Text.{Text, codes, pad_start}
use export_vault.Text.Decimal.{
  to_string, is_digit, IsDigit, read_digits, read_digits-to_string, to_string-IsDigit,
}
use export_vault.Storage.{chunk_key, final_key, chunk_prefix}

append-cancel : {A : Type 0} (xs ys zs : List A) → xs ++ ys ≡ xs ++ zs → ys ≡ zs
append-cancel [] ys zs h = h
append-cancel (x ∷ xs) ys zs h = append-cancel xs ys zs (cc)

second : Text → ℕ
second [] = 0
second (c ∷ []) = 0
second (c ∷ d ∷ s) = d

-- The number at the start of a text.
leading_number : ℕ → Text → ℕ
leading_number n [] = n
leading_number n (c ∷ s) = if is_digit c then leading_number (n * 10 + (c - b'0')) s else n

leading_number-digits :
    (n : ℕ) (s t : Text) → All IsDigit s → read_digits n s ≡ some (leading_number n (s ++ b'.' ∷ t))
unfolding leading_number read_digits
leading_number-digits n [] t h = refl
leading_number-digits n (c ∷ s) t (d, h) =
    ground (arith, leading_number-digits (n * 10 + (c - b'0')) s t h)

leading_number-zeros :
    (k : ℕ) (s : Text) → leading_number 0 (replicate k b'0' ++ s) ≡ leading_number 0 s
unfolding leading_number
leading_number-zeros zero s = refl
leading_number-zeros (suc k) s = leading_number-zeros k s

leading_number-chunk :
    (n : ℕ) → leading_number 0 (pad_start 8 b'0' (to_string n) ++ codes ".csv") ≡ n
unfolding pad_start
leading_number-chunk n =
    ap (leading_number 0) (append_assoc (replicate _ b'0') (to_string n) (codes ".csv"))
    ∙ leading_number-zeros _ (to_string n ++ codes ".csv")
    ∙ sym (
        some_inj.0 (
          sym (read_digits-to_string n)
          ∙ leading_number-digits 0 (to_string n) (codes "csv") (to_string-IsDigit n)))

-- Two batches of a job never have the same key, however many batches there are; every chunk's key
-- lies under the prefix that is cleared at the end; and the key of the finished file does not, so
-- that clearing the chunks cannot meet the file.
pub chunk_keys_apart :
    (job : Text) (m n : ℕ)
    → (chunk_key job m ≡ chunk_key job n → m ≡ n)
      × ((rest : Text) × (chunk_key job n ≡ chunk_prefix job ++ rest))
      × ((rest : Text) → final_key job ≢ chunk_prefix job ++ rest)
unfolding chunk_key chunk_prefix final_key second
chunk_keys_apart job m n = (
  λ h.
      let tail_same =
        append-cancel (codes "/chunks/") _ _
          (append-cancel job _ _ (append-cancel (codes "exports/") _ _ h)) in
      sym (leading_number-chunk m) ∙ ap (leading_number 0) tail_same ∙ leading_number-chunk n,
  (pad_start 8 b'0' (to_string n) ++ codes ".csv", simp append_assoc),
  λ rest h.
      let at_job =
        append-cancel job (codes "/export-" ++ (job ++ codes ".csv")) (codes "/chunks/" ++ rest) (
          append-cancel (codes "exports/") _ _ (
            h
            ∙ append_assoc (codes "exports/") (job ++ codes "/chunks/") rest
            ∙ ap (λ t. codes "exports/" ++ t) (append_assoc job (codes "/chunks/") rest))) in
      let second_same : 101 ≡ 99 = ap second at_job in absurd (omega arith),
)
