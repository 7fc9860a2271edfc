-- ===== src/Result.antt =====
-- What a call that may throw returns.
use export_vault.Prelude.{◌≡◌, refl, ap, ◌⊎◌, inl, inr}
use export_vault.Model.Errors.{AppError}

pub data Result {ℓ} (A : Type ℓ) : Type ℓ where
  ok : A → Result A
  err : AppError → Result A

pub Result-cases {ℓ} :
    {A : Type ℓ} (r : Result A) → ((a : A) × (r ≡ ok a)) ⊎ ((e : AppError) × (r ≡ err e))
Result-cases (ok a) = inl (a, refl)
Result-cases (err e) = inr (e, refl)

pub ok_injective {ℓ} : {A : Type ℓ} {a b : A} → ok a ≡ ok b → a ≡ b
ok_injective {A} {a} e = ap (elim [ ok x ↦ x | err _ ↦ a ]) e
