-- ===== src/Tests/Gates.antt =====
-- The theorems on the settings, the routes, the probes and the worker process at concrete inputs that
-- meet their hypotheses.
use export_vault.Prelude.{
  ℕ, ◌+◌, ◌*◌, ◌-◌, ◌≤◌, ◌<◌, ◌≡◌, ◌↔◌, ◌⊎◌, refl, arith, false, true, Option, none, some, List, [],
  ◌∷◌, if◌then◌else◌, ◌++◌,
}
use export_vault.Prelude.Int.{pos}
use export_vault.Text.{Text, codes, text_eq}
use export_vault.Text.BigInt.{trim}
use export_vault.Model.Errors.{unauthorized_error, missing_token, status_code}
use export_vault.World.{thrown}
use export_vault.Auth.{bearer, require_auth}
use export_vault.ExportService.{max_row_limit, resume_export_job}
use export_vault.Config.Checked.{valid}
use export_vault.Config.Fields.{JsNumber, whole}
use export_vault.Config.Load
use export_vault.Config.Load.{Environment, Config, load}
use export_vault.Config.Load.Sound.{IsSound, load-IsSound}
use export_vault.Config.Load.Blank.{without, wake_url, blank_is_unset}
use export_vault.Http.Exports.{create_export_schema, post_export, get_list, get_stats, for_job}
use export_vault.Http.Guarded.{create_export_schema_iff, exports_need_token}
use export_vault.Http.Bounds.{AllBounded, post_export_keeps_bounds}
use export_vault.Tests.Fixture.{quiet, start}
use export_vault.Tests.Tokens.{toy}

-- A reader of digits alone.
digits : ℕ → Text → JsNumber
digits n [] = whole (pos n)
digits n (c ∷ s) = digits (n * 10 + (c - 48)) s

abbrev variables : List (Text × Text)
variables =
    (codes "DATABASE_URL", codes "postgres://db")
    ∷ (codes "AWS_ACCESS_KEY_ID", codes "key")
    ∷ (codes "AWS_SECRET_ACCESS_KEY", codes "secret")
    ∷ (codes "S3_BUCKET", codes "exports")
    ∷ (codes "EXPORT_BATCH_SIZE", codes "2")
    ∷ (codes "WORKER_WAKE_URL", codes "  ")
    ∷ []

unfoldable value_in : List (Text × Text) → Environment
value_in [] name = none
value_in ((key, value) ∷ vs) name = if text_eq key name then some value else value_in vs name

abbrev settings : Config
settings = record {
  service = record {
    node_env = Load.development;
    port = 5000;
    database_url = codes "postgres://db";
  };
  redis = record { host = codes "localhost"; port = 6379; password = none; tls = false };
  jwt = record { secret = none; expires_in = codes "12h" };
  storage = record {
    access_key_id = codes "key";
    secret_access_key = codes "secret";
    region = codes "auto";
    bucket = codes "exports";
    endpoint = none;
    public_endpoint = none;
    force_path_style = false;
    signed_url_ttl = 900;
    response_overrides = true;
  };
  web = record { client_url = codes "http://localhost:5173"; log_level = Load.info };
  worker = record { concurrency = 2; health_port = none; wake_url = none };
  export = record { batch_size = 2; stall_timeout_seconds = 45; crash_after_rows = none };
}

settings_loaded : load (digits 0) (value_in variables) ≡ valid settings
unfolding load digits value_in text_eq trim
settings_loaded = refl

load-IsSound_example : IsSound settings
load-IsSound_example = load-IsSound (digits 0) (value_in variables) settings_loaded

blank_is_unset_example :
    load (digits 0) (value_in variables)
    ≡ load (digits 0) (without (codes "WORKER_WAKE_URL") (value_in variables))
unfolding value_in text_eq trim
blank_is_unset_example =
    blank_is_unset (digits 0) (value_in variables) wake_url (codes "  ") refl refl

create_export_schema_iff_example : (create_export_schema (some (whole (pos 50))) ≡ valid 50) ↔ (
    ((some (whole (pos 50)) ≡ none) × (50 ≡ max_row_limit))
    ⊎ ((some (whole (pos 50)) ≡ some (whole (pos 50))) × (0 < 50) × (50 ≤ max_row_limit)))
create_export_schema_iff_example = create_export_schema_iff (some (whole (pos 50))) 50

exports_need_token_example :
    (post_export toy {e = quiet} (λ user. true) none none start
      ≡ (thrown (unauthorized_error missing_token), start))
    × (get_list toy {e = quiet} none start ≡ (thrown (unauthorized_error missing_token), start))
    × (get_stats toy {e = quiet} none start ≡ (thrown (unauthorized_error missing_token), start))
    × (for_job toy {e = quiet} (λ id. true) none (codes "j1") resume_export_job start
        ≡ (thrown (unauthorized_error missing_token), start))
    × (status_code (unauthorized_error missing_token) ≡ 401)
unfolding require_auth
exports_need_token_example =
    exports_need_token toy {e = quiet} none start (λ user. true) (λ id. true) none (codes "j1")
      resume_export_job (unauthorized_error missing_token) refl

abbrev ann_header : Option Text
ann_header = some (bearer ++ toy.sign 0 (record { sub = codes "u1"; email = codes "a@x" }))

post_export_keeps_bounds_example :
    AllBounded
      (post_export toy {e = quiet} (λ user. true) ann_header (some (whole (pos 2))) start).1.db
unfolding quiet start
post_export_keeps_bounds_example =
    post_export_keeps_bounds {e = quiet} (digits 0) (value_in variables) settings toy (λ user. true)
      ann_header (some (whole (pos 2))) start settings_loaded refl (λ n d h. h)
      (
        record {
          some_rows = omega arith;
          row_cap = omega arith;
          some_batch = omega arith;
          batch_cap = omega arith;
        },
        tt,
      )
