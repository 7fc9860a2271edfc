-- ===== src/Config/Checked.antt =====
-- What a zod schema makes of its input: a value, or issues (server/src/config/env.ts,
-- middleware/validate.middleware.ts).
use export_vault.Prelude.{ℕ, ◌≡◌, subst, List, [], ◌∷◌, ◌++◌}
use export_vault.Text.{Text}

pub data IssueKind : Type 0 where
  -- there is no value of the wanted type
  invalid_type not_integer invalid_enum_value invalid_string custom : IssueKind
  too_small too_big : ℕ → IssueKind

pub record Issue : Type 0 where
  pub path : Text
  pub kind : IssueKind

pub data Checked {ℓ} (A : Type ℓ) : Type ℓ where
  valid : A → Checked A
  -- the first issue, and those behind it
  invalid : Issue → List Issue → Checked A

abbrev pub issues_of {ℓ} : {A : Type ℓ} → Checked A → List Issue
issues_of (valid a) = []
issues_of (invalid i is) = i ∷ is

abbrev pub complain : {A : Type 0} → A → List Issue → Checked A
complain a [] = valid a
complain a (i ∷ is) = invalid i is

-- An object of checked fields: the issues of all of them, in order.
infixl 20 ◌<*>◌
abbrev pub ◌<*>◌ : {A B : Type 0} → Checked (A → B) → Checked A → Checked B
valid f <*> valid a = valid (f a)
valid f <*> invalid i is = invalid i is
invalid i is <*> x = invalid i (is ++ issues_of x)

-- The value, if there is one, has the property.
abbrev pub Holds : {A : Type 0} → (A → Type 0) → Checked A → Type 0
Holds P (valid a) = P a
Holds P (invalid i is) = Unit

pub Holds-<*> :
    {A B : Type 0} (P : A → Type 0) (Q : B → Type 0) (f : Checked (A → B)) (x : Checked A)
    → Holds (λ g. (a : A) → P a → Q (g a)) f
    → Holds P x
    → Holds Q (f <*> x)
Holds-<*> P Q (valid g) (valid a) h p = h a p
Holds-<*> P Q (valid g) (invalid i is) h p = tt
Holds-<*> P Q (invalid i is) x h p = tt

pub Holds-mono :
    {A : Type 0} (P Q : A → Type 0) (x : Checked A) → ((a : A) → P a → Q a) → Holds P x → Holds Q x
Holds-mono P Q (valid a) f h = f a h
Holds-mono P Q (invalid i is) f h = tt

pub Holds-valid :
    {A : Type 0} (P : A → Type 0) (x : Checked A) {a : A} → x ≡ valid a → Holds P x → P a
Holds-valid P x {a} e h = subst (Holds P) e h
