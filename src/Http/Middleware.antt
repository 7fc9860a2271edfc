-- ===== src/Http/Middleware.antt =====
-- server/src/middleware/requestId.middleware.ts, validate.middleware.ts, and the check of origins in
-- server/src/app.ts.
use export_vault.Prelude.{
  Bool, true, false, ◌||◌, Option, none, some, List, [], ◌∷◌, leb, if◌then◌else◌,
}
use export_vault.Text.{Text, text_eq}
use export_vault.Model.Errors.{Message, validation_error, body_invalid, params_invalid}
use export_vault.Result.{Result, ok, err}
use export_vault.Config.Checked.{Checked, valid, invalid}
use export_vault.Config.Fields.{utf16_length}

-- The header is taken over if it is not empty and not too long; `fresh` is crypto.randomUUID().
unfoldable pub request_id : (fresh : Text) → Option Text → Text
unfolding utf16_length
request_id fresh none = fresh
request_id fresh (some []) = fresh
request_id fresh (some (c ∷ s)) = if leb (utf16_length (c ∷ s)) 128 then c ∷ s else fresh

-- schema.parse in a `try`; the details of the error are left out.
validated : {A : Type 0} → Message → Checked A → Result A
validated m (valid a) = ok a
validated m (invalid i is) = err (validation_error m)

-- What `req.body` is replaced with.
unfoldable pub validate_body : {A : Type 0} → Checked A → Result A
unfolding validated
validate_body x = validated body_invalid x

unfoldable pub validate_params : {A : Type 0} → Checked A → Result A
unfolding validated
validate_params x = validated params_invalid x

-- list.includes(origin)
unfoldable pub includes_text : List Text → Text → Bool
unfolding text_eq
includes_text [] t = false
includes_text (u ∷ us) t = text_eq u t || includes_text us t

-- Whether `origin(origin, callback)` lets a request through; a header that is empty is none.
unfoldable pub origin_allowed : (allowlist : List Text) → Option Text → Bool
unfolding includes_text
origin_allowed allowlist none = true
origin_allowed allowlist (some []) = true
origin_allowed allowlist (some (c ∷ s)) = includes_text allowlist (c ∷ s)
