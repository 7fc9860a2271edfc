-- ===== src/Http/Accounts.antt =====
-- The routes of server/src/routes/auth.routes.ts with the schemas and handlers of
-- server/src/controllers/auth.controller.ts.
use export_vault.Prelude.{
  ℕ, Bool, false, not, ◌&&◌, ◌||◌, Option, none, some, List, [], ◌∷◌, ◌++◌, leb, ltb, if◌then◌else◌,
}
use export_vault.Text.{Text, codes}
use export_vault.Text.BigInt.{trim}
use export_vault.Model.{User}
use export_vault.Model.Errors.{app_error, too_many_attempts}
use export_vault.World.{Env, M, ◌>>=◌, throw, lift}
use export_vault.Auth.{Crypto, Login, register_user, login_user, me}
use export_vault.Config.Checked.{
  Issue, Checked, valid, invalid, ◌<*>◌, complain, invalid_type, invalid_string, too_small, too_big,
}
use export_vault.Config.Fields.{issue, issue_if, utf16_length}
use export_vault.Http.Middleware.{validate_body}
use export_vault.Http.Exports.{authenticated}

-- The fields of a body; `none` is one that is missing or no string.
pub record AccountBody : Type 0 where
  pub name : Option Text
  pub email : Option Text
  pub password : Option Text

pub record Registration : Type 0 where
  pub name : Text
  pub email : Text
  pub password : Text

pub record Credentials : Type 0 where
  pub email : Text
  pub password : Text

-- z.string(), what it makes of a string, and the issues that it finds in that
abbrev pub text_field : Text → (Text → Text) → (Text → List Issue) → Option Text → Checked Text
text_field path prepare find none = invalid (issue path invalid_type) []
text_field path prepare find (some s) = complain (prepare s) (find (prepare s))

-- .min(n) and .max(n)
abbrev pub at_least : Text → ℕ → Text → List Issue
at_least path n s = issue_if (ltb (utf16_length s) n) (issue path (too_small n))

abbrev pub at_most : Text → ℕ → Text → List Issue
at_most path n s = issue_if (ltb n (utf16_length s)) (issue path (too_big n))

-- .regex(/[a-z]/), for a range of characters
unfoldable pub has_char : (first last : ℕ) → Text → Bool
has_char first last [] = false
has_char first last (c ∷ s) = (leb first c && leb c last) || has_char first last s

abbrev pub with_char : Text → ℕ → ℕ → Text → List Issue
with_char path first last s = issue_if (not (has_char first last s)) (issue path invalid_string)

abbrev pub name_issues : Text → List Issue
name_issues s = at_least (codes "name") 2 s ++ at_most (codes "name") 100 s

abbrev pub password_issues : Text → List Issue
password_issues s =
    at_least (codes "password") 10 s
    ++ (at_most (codes "password") 200 s
        ++ (with_char (codes "password") b'a' b'z' s
            ++ (with_char (codes "password") b'A' b'Z' s
                ++ with_char (codes "password") b'0' b'9' s)))

-- The pattern of an address is the schema library's; it lets no address through that is not ASCII, on
-- which the lower-casing in Auth relies.
module _ (is_email : Text → Bool) where
  abbrev pub an_address : Text → List Issue
  an_address s = issue_if (not (is_email s)) (issue (codes "email") invalid_string)

  abbrev pub email_issues : Text → List Issue
  email_issues s = an_address s ++ at_most (codes "email") 255 s

  unfoldable pub register_schema : AccountBody → Checked Registration
  unfolding utf16_length has_char trim
  register_schema b =
      valid (λ name email password. record { name = name; email = email; password = password })
      <*> text_field (codes "name") trim name_issues b.name
      <*> text_field (codes "email") trim email_issues b.email
      <*> text_field (codes "password") (λ s. s) password_issues b.password

  unfoldable pub login_schema : AccountBody → Checked Credentials
  unfolding utf16_length trim
  login_schema b =
      valid (λ email password. record { email = email; password = password })
      <*> text_field (codes "email") trim an_address b.email
      <*> text_field (codes "password") (λ s. s) (at_least (codes "password") 1) b.password

  module _ (c : Crypto) {e : Env} where
    -- authLimiter, by whether it lets the client through
    unfoldable pub auth_limited : {A : Type 0} → Bool → M e A → M e A
    auth_limited allowed next =
        if not allowed then throw (app_error too_many_attempts 429 (codes "RATE_LIMITED")) else next

    -- POST /register
    unfoldable pub post_register : (allowed : Bool) → AccountBody → M e User
    unfolding auth_limited register_schema validate_body
    post_register allowed body = auth_limited allowed (do
      r ← lift (validate_body (register_schema body))
      register_user c r.name r.email r.password)

    -- POST /login
    unfoldable pub post_login : (allowed : Bool) → AccountBody → M e Login
    unfolding auth_limited login_schema validate_body
    post_login allowed body =
        auth_limited allowed
          (do r ← lift (validate_body (login_schema body)); login_user c r.email r.password)

    -- GET /me
    unfoldable pub get_me : Option Text → M e User
    get_me header = authenticated c header (λ user. me c user)
