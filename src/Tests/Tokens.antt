-- ===== src/Tests/Tokens.antt =====
-- A small stand-in for bcryptjs and jsonwebtoken: the password is its own hash, and a token spells
-- the payload in digits.
use export_vault.Prelude.{
  ℕ, zero, suc, ◌+◌, ◌≡◌, ◌≢◌, ◌∙◌, refl, ap, Option, none, some, [], ◌∷◌, ◌++◌, arith, ◌==◌,
  append-nil, append_assoc, if◌then◌else◌, All,
}
use export_vault.Text.{Text, text_eq, text_eq_iff}
use export_vault.Text.BigInt.{trim_of_IsDigit}
use export_vault.Text.Decimal.{IsDigit}
use export_vault.Auth.{Crypto, JwtPayload}
use export_vault.Auth.Laws.{IsCrypto}

ones : ℕ → Text → Text
ones zero s = b'0' ∷ s
ones (suc n) s = b'1' ∷ ones n s

spell : Text → Text → Text
unfolding ones
spell [] rest = b'2' ∷ rest
spell (c ∷ s) rest = ones c (spell s rest)

unspell : ℕ → Text → Text → Option (Text × Text)
unspell n done [] = none
unspell n done (d ∷ s) =
    if d == b'1'
    then unspell (suc n) done s
    else if d == b'0'
    then unspell 0 (done ++ n ∷ []) s
    else some (done, s)

unspell-ones :
    (m n : ℕ) (done s : Text) → unspell n done (ones m s) ≡ unspell 0 (done ++ (n + m) ∷ []) s
unfolding unspell ones
unspell-ones zero n done s = ap (λ k. unspell 0 (done ++ k ∷ []) s) (omega arith)
unspell-ones (suc m) n done s =
    unspell-ones m (suc n) done s ∙ ap (λ k. unspell 0 (done ++ k ∷ []) s) (omega arith)

unspell-spell : (done t rest : Text) → unspell 0 done (spell t rest) ≡ some (done ++ t, rest)
unfolding unspell spell
unspell-spell done [] rest = rw (append-nil done) refl
unspell-spell done (c ∷ t) rest =
    unspell-ones c 0 done (spell t rest)
    ∙ ap (λ k. unspell 0 (done ++ k ∷ []) (spell t rest)) zero_plus
    ∙ unspell-spell (done ++ c ∷ []) t rest
    ∙ ap (λ d. some (d, rest)) (append_assoc done (c ∷ []) t)
  where
    zero_plus : 0 + c ≡ c
    zero_plus = omega arith

ones-IsDigit : (n : ℕ) (s : Text) → All IsDigit s → All IsDigit (ones n s)
unfolding ones
ones-IsDigit zero s h = (ground arith, h)
ones-IsDigit (suc n) s h = (ground arith, ones-IsDigit n s h)

spell-IsDigit : (t rest : Text) → All IsDigit rest → All IsDigit (spell t rest)
unfolding spell
spell-IsDigit [] rest h = (ground arith, h)
spell-IsDigit (c ∷ t) rest h = ones-IsDigit c (spell t rest) (spell-IsDigit t rest h)

ones_filled : (n : ℕ) (s : Text) → ones n s ≢ []
unfolding ones
ones_filled zero s h = cc
ones_filled (suc n) s h = cc

spell_filled : (t rest : Text) → spell t rest ≢ []
unfolding spell
spell_filled [] rest h = cc
spell_filled (c ∷ t) rest h = ones_filled c (spell t rest) h

email_of : Text → Option (Text × Text) → Option JwtPayload
email_of sub none = none
email_of sub (some (email, rest)) = some (record { sub = sub; email = email })

payload_of : Option (Text × Text) → Option JwtPayload
unfolding email_of unspell
payload_of none = none
payload_of (some (sub, rest)) = email_of sub (unspell 0 [] rest)

unfoldable pub toy : Crypto
unfolding spell unspell payload_of text_eq
toy = record {
  hash = λ salt password rounds. password;
  compare = λ password hashed. text_eq password hashed;
  sign = λ now p. spell p.sub (spell p.email []);
  verify = λ now token. payload_of (unspell 0 [] token);
}

pub toy-IsCrypto : IsCrypto toy 3600
unfolding toy payload_of email_of
toy-IsCrypto = record {
  compare-hash = λ salt password rounds. (text_eq_iff password password).1 refl;
  verify-sign = λ signed now p late early.
      ap payload_of (unspell-spell [] p.sub (spell p.email []))
      ∙ ap (email_of p.sub) (unspell-spell [] p.email []);
  trimmed = λ signed p.
      trim_of_IsDigit _ (spell-IsDigit p.sub (spell p.email []) (spell-IsDigit p.email [] tt));
  filled = λ signed p. spell_filled p.sub (spell p.email []);
}
