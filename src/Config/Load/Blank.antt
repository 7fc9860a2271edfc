-- ===== src/Config/Load/Blank.antt =====
-- A variable that is set to white space alone counts as not set (server/src/config/env.ts).
use export_vault.Prelude.{◌≡◌, refl, none, some, [], if◌then◌else◌}
use export_vault.Text.{Text, codes, text_eq}
use export_vault.Text.BigInt.{trim}
use export_vault.Config.Fields.{JsNumber, trimmed, http_url_if_set}
use export_vault.Config.Load.{Environment, storage, worker, load}

-- The environment without the variable.
abbrev pub without : Text → Environment → Environment
without name v path = if text_eq name path then none else v path

trimmed_blank : (s : Text) → trim s ≡ [] → trimmed (some s) ≡ trimmed none
unfolding trimmed
trimmed_blank s blank = rw blank refl

-- The three variables that the schema trims.
pub data TrimmedVariable : Type 0 where
  endpoint public_endpoint wake_url : TrimmedVariable

abbrev pub name_of : TrimmedVariable → Text
name_of endpoint = codes "S3_ENDPOINT"
name_of public_endpoint = codes "S3_PUBLIC_ENDPOINT"
name_of wake_url = codes "WORKER_WAKE_URL"

-- The endpoint of the store, the public one and the wake URL: set to nothing but white space, each is
-- as if it were not set, for everything that the settings say, issues included.
pub blank_is_unset :
    (number : Text → JsNumber) (v : Environment) (name : TrimmedVariable) (s : Text)
    → v (name_of name) ≡ some s
    → trim s ≡ []
    → load number v ≡ load number (without (name_of name) v)
unfolding load storage worker text_eq http_url_if_set
blank_is_unset number v endpoint s set blank = rw set (rw (trimmed_blank s blank) refl)
blank_is_unset number v public_endpoint s set blank = rw set (rw (trimmed_blank s blank) refl)
blank_is_unset number v wake_url s set blank = rw set (rw (trimmed_blank s blank) refl)
