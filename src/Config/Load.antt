-- ===== src/Config/Load.antt =====
-- The schema of server/src/config/env.ts, and what the module exports.
pub mod Sound
pub mod Blank
use export_vault.Prelude.{
  ℕ, Bool, true, false, Option, none, some, List, [], ◌∷◌, ◌++◌, map, ◌==◌, if◌then◌else◌,
}
use export_vault.Text.{Text, codes, text_eq}
use export_vault.Text.BigInt.{trim}
use export_vault.Config.Checked.{Issue, Checked, valid, invalid, ◌<*>◌}
use export_vault.Config.Fields.{
  JsNumber, positive_number, some_text, some_text_or, text_or, long_text_if_set, booleanish,
  on_unless_said, trimmed, http_url_if_set, one_of,
}

pub data NodeEnv : Type 0 where
  development test production : NodeEnv

pub data LogLevel : Type 0 where
  fatal error warn info debug trace silent : LogLevel

pub record Service : Type 0 where
  pub node_env : NodeEnv
  pub port : ℕ
  pub database_url : Text

pub record Redis : Type 0 where
  pub host : Text
  pub port : ℕ
  pub password : Option Text
  pub tls : Bool

pub record Jwt : Type 0 where
  pub secret : Option Text
  pub expires_in : Text

pub record Storage : Type 0 where
  pub access_key_id : Text
  pub secret_access_key : Text
  pub region : Text
  pub bucket : Text
  pub endpoint : Option Text
  pub public_endpoint : Option Text
  pub force_path_style : Bool
  pub signed_url_ttl : ℕ
  pub response_overrides : Bool

pub record Web : Type 0 where
  pub client_url : Text
  pub log_level : LogLevel

pub record Worker : Type 0 where
  pub concurrency : ℕ
  pub health_port : Option ℕ
  pub wake_url : Option Text

pub record Export : Type 0 where
  pub batch_size : ℕ
  pub stall_timeout_seconds : ℕ
  pub crash_after_rows : Option JsNumber

-- `env`, its variables in the order of the schema.
pub record Config : Type 0 where
  pub service : Service
  pub redis : Redis
  pub jwt : Jwt
  pub storage : Storage
  pub web : Web
  pub worker : Worker
  pub export : Export

-- The environment behind dotenv, which leaves alone what is set.
abbrev pub Environment : Type 0
Environment = Text → Option Text

abbrev node_envs : List (Text × NodeEnv)
node_envs =
    (codes "development", development)
    ∷ (codes "test", test)
    ∷ (codes "production", production)
    ∷ []

abbrev log_levels : List (Text × LogLevel)
log_levels =
    (codes "fatal", fatal)
    ∷ (codes "error", error)
    ∷ (codes "warn", warn)
    ∷ (codes "info", info)
    ∷ (codes "debug", debug)
    ∷ (codes "trace", trace)
    ∷ (codes "silent", silent)
    ∷ []

-- `Number(text)` of the language, which reads decimal fractions and exponents too.
module _ (number : Text → JsNumber) (v : Environment) where
  number_or : ℕ → Text → Option ℕ → Option Text → Checked ℕ
  number_or d path max none = valid d
  number_or d path max (some s) = positive_number path max (number s)

  -- z.coerce.number().int().positive().default(d)
  pub positive_or : ℕ → Text → Checked ℕ
  unfolding number_or positive_number
  positive_or d path = number_or d path none (v path)

  optional_number : Text → Option Text → Checked (Option ℕ)
  optional_number path none = valid none
  optional_number path (some s) = valid some <*> positive_number path none (number s)

  crash_point : Option Text → Option JsNumber
  crash_point none = none
  crash_point (some s) = if text_eq (trim s) [] then none else some (number s)

  service : Checked Service
  unfolding positive_or one_of some_text
  service =
      valid (λ a b c. record { node_env = a; port = b; database_url = c })
      <*> one_of node_envs (codes "NODE_ENV") (text_or (codes "development") (v (codes "NODE_ENV")))
      <*> positive_or 5000 (codes "PORT")
      <*> some_text (codes "DATABASE_URL") (v (codes "DATABASE_URL"))

  redis : Checked Redis
  unfolding positive_or some_text_or booleanish
  redis =
      valid (λ a b. record {
        host = a;
        port = b;
        password = v (codes "REDIS_PASSWORD");
        tls = booleanish (v (codes "REDIS_TLS"));
      })
      <*> some_text_or (codes "localhost") (codes "REDIS_HOST") (v (codes "REDIS_HOST"))
      <*> positive_or 6379 (codes "REDIS_PORT")

  jwt : Checked Jwt
  unfolding long_text_if_set
  jwt =
      valid (λ a. record {
        secret = a;
        expires_in = text_or (codes "12h") (v (codes "JWT_EXPIRES_IN"));
      })
      <*> long_text_if_set 32 (codes "JWT_SECRET") (v (codes "JWT_SECRET"))

  storage : Checked Storage
  unfolding positive_or some_text trimmed booleanish on_unless_said
  storage =
      valid (λ a b c d. record {
        access_key_id = a;
        secret_access_key = b;
        region = text_or (codes "auto") (v (codes "AWS_REGION"));
        bucket = c;
        endpoint = trimmed (v (codes "S3_ENDPOINT"));
        public_endpoint = trimmed (v (codes "S3_PUBLIC_ENDPOINT"));
        force_path_style = booleanish (v (codes "S3_FORCE_PATH_STYLE"));
        signed_url_ttl = d;
        response_overrides = on_unless_said (v (codes "S3_RESPONSE_OVERRIDES"));
      })
      <*> some_text (codes "AWS_ACCESS_KEY_ID") (v (codes "AWS_ACCESS_KEY_ID"))
      <*> some_text (codes "AWS_SECRET_ACCESS_KEY") (v (codes "AWS_SECRET_ACCESS_KEY"))
      <*> some_text (codes "S3_BUCKET") (v (codes "S3_BUCKET"))
      <*> positive_or 900 (codes "S3_SIGNED_URL_TTL")

  web : Checked Web
  unfolding one_of
  web =
      valid (λ a. record {
        client_url = text_or (codes "http://localhost:5173") (v (codes "CLIENT_URL"));
        log_level = a;
      })
      <*> one_of log_levels (codes "LOG_LEVEL") (text_or (codes "info") (v (codes "LOG_LEVEL")))

  worker : Checked Worker
  unfolding positive_or optional_number http_url_if_set
  worker =
      valid (λ a b c. record { concurrency = a; health_port = b; wake_url = c })
      <*> positive_or 2 (codes "WORKER_CONCURRENCY")
      <*> optional_number (codes "WORKER_HEALTH_PORT") (v (codes "WORKER_HEALTH_PORT"))
      <*> http_url_if_set (codes "WORKER_WAKE_URL") (v (codes "WORKER_WAKE_URL"))

  export : Checked Export
  unfolding positive_or number_or crash_point
  export =
      valid (λ a b. record {
        batch_size = a;
        stall_timeout_seconds = b;
        crash_after_rows = crash_point (v (codes "EXPORT_CRASH_AFTER_ROWS"));
      })
      <*> number_or 1000 (codes "EXPORT_BATCH_SIZE") (some 10000) (v (codes "EXPORT_BATCH_SIZE"))
      <*> positive_or 45 (codes "EXPORT_STALL_TIMEOUT_SECONDS")

  -- schema.safeParse(process.env); the module throws an error with all the issues.
  unfoldable pub load : Checked Config
  unfolding service redis jwt storage web worker export
  load =
      valid (λ a b c d e f g. record {
        service = a;
        redis = b;
        jwt = c;
        storage = d;
        web = e;
        worker = f;
        export = g;
      })
      <*> service
      <*> redis
      <*> jwt
      <*> storage
      <*> web
      <*> worker
      <*> export

-- `!env.JWT_SECRET`: none where the API refuses to start
unfoldable pub require_jwt_secret : Config → Option Text
require_jwt_secret c = elim c.jwt.secret [
  | none ↦ none
  | some s ↦ if text_eq s [] then none else some s
]

-- text.split(c), for one character
unfoldable pub split_at : ℕ → Text → Text → List Text
split_at sep part [] = part ∷ []
split_at sep part (c ∷ s) = elim (c == sep) [
  | true ↦ part ∷ split_at sep [] s
  | false ↦ split_at sep (part ++ c ∷ []) s
]

without_empty : List Text → List Text
without_empty [] = []
without_empty ([] ∷ ts) = without_empty ts
without_empty ((c ∷ t) ∷ ts) = (c ∷ t) ∷ without_empty ts

-- corsAllowlist
unfoldable pub cors_allowlist : Config → List Text
unfolding split_at without_empty trim
cors_allowlist c = without_empty (map trim (split_at b',' [] c.web.client_url))

unfoldable pub is_production : Config → Bool
is_production c = elim c.service.node_env [ production ↦ true | _ ↦ false ]

-- storage.service.ts: `publicEndpoint`, for which download URLs are signed
unfoldable pub public_endpoint : Config → Option Text
public_endpoint c = elim c.storage.public_endpoint [
  | some url ↦ some url
  | none ↦ c.storage.endpoint
]
