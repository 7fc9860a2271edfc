-- ===== src/Config/Load/Sound.antt =====
-- What an accepted environment gives (server/src/config/env.ts).
use export_vault.Prelude.{
  ℕ, ◌≤◌, ◌<◌, ◌≡◌, ◌≢◌, refl, true, false, Option, none, some, [], ◌∷◌, arith, ltb, Bool-cases,
  inl, inr,
}
use export_vault.Prelude.Int.{pos, negsuc}
use export_vault.Text.{Text, codes}
use export_vault.Config.Checked.{Checked, valid, ◌<*>◌, Holds, Holds-<*>, Holds-mono, Holds-valid}
use export_vault.Config.Fields.{
  JsNumber, whole, above, infinite, nan, past, positive_number, some_text, text_or, one_of,
  utf16_length, long_text_if_set, is_http_url, url_if_set, trimmed, http_url_if_set,
}
use export_vault.Config.Load.{
  node_envs, NodeEnv, Web, web, Config, Service, Redis, Jwt, Storage, Worker, Export, Environment,
  service, redis, jwt, storage, worker, export, number_or, positive_or, optional_number, load,
}

positive_number-Holds :
    (path : Text) (max : Option ℕ) (x : JsNumber)
    → Holds (λ n. (0 < n) × (past max n ≡ false)) (positive_number path max x)
unfolding positive_number
positive_number-Holds path max nan = tt
positive_number-Holds path max (whole (pos n)) = ground arith
positive_number-Holds path max (whole (negsuc n)) = tt
positive_number-Holds path max (above (pos n)) = tt
positive_number-Holds path max (above (negsuc n)) = tt
positive_number-Holds path max (infinite true) = tt
positive_number-Holds path none (infinite false) = tt
positive_number-Holds path (some limit) (infinite false) = tt

some_text-Holds : (path : Text) (v : Option Text) → Holds (λ s. s ≢ []) (some_text path v)
unfolding some_text
some_text-Holds path none = tt
some_text-Holds path (some []) = tt
some_text-Holds path (some (c ∷ s)) = λ e. cc

long_text-Holds :
    (least : ℕ) (path : Text) (v : Option Text)
    → Holds (λ o. (s : Text) → o ≡ some s → least ≤ utf16_length s) (long_text_if_set least path v)
unfolding long_text_if_set
long_text-Holds least path none = λ s e. cc
long_text-Holds least path (some t) = elim (Bool-cases (ltb (utf16_length t) least)) [
  | inl short ↦ rw short tt
  | inr long ↦ rw long (λ s e. let same : t ≡ s = cc in rw (← same) (ground arith))
]

http_url-Holds :
    (path : Text) (v : Option Text)
    → Holds (λ o. (s : Text) → o ≡ some s → is_http_url s ≡ true) (http_url_if_set path v)
unfolding http_url_if_set
http_url-Holds path v = here (trimmed v)
  where
    here :
        (o : Option Text)
        → Holds (λ o. (s : Text) → o ≡ some s → is_http_url s ≡ true) (url_if_set path o)
    here none = λ s e. cc
    here (some t) = elim (Bool-cases (is_http_url t)) [
      | inl http ↦ rw (http, url_if_set) (λ s e. let same : t ≡ s = cc in rw (← same) http)
      | inr other ↦ rw (other, url_if_set) tt
    ]

-- The bounds that the settings keep.
pub record IsSound (c : Config) : Type 0 where
  pub port : 0 < c.service.port
  pub database_url : c.service.database_url ≢ []
  pub redis_port : 0 < c.redis.port
  pub long_secret : (s : Text) → c.jwt.secret ≡ some s → 32 ≤ utf16_length s
  pub bucket : c.storage.bucket ≢ []
  pub signed_url_ttl : 0 < c.storage.signed_url_ttl
  pub concurrency : 0 < c.worker.concurrency
  pub health_port : (p : ℕ) → c.worker.health_port ≡ some p → 0 < p
  pub wake_url : (s : Text) → c.worker.wake_url ≡ some s → is_http_url s ≡ true
  pub batch_size : 0 < c.export.batch_size
  pub batch_limit : c.export.batch_size ≤ 10000
  pub stall_timeout : 0 < c.export.stall_timeout_seconds

abbrev Positive : ℕ → Type 0
Positive n = 0 < n

Holds-service :
    (x : Checked NodeEnv) (y : Checked ℕ) (z : Checked Text)
    → Holds Positive y
    → Holds (λ s. s ≢ []) z
    → Holds
        (λ s. (0 < s.port) × (s.database_url ≢ []))
        (valid (λ a b c. let s : Service = record { node_env = a; port = b; database_url = c } in s)
          <*> x
          <*> y
          <*> z)
Holds-service x y z positive some_url = ground arith

-- The groups together.
module _ (x : Checked Service) (r : Checked Redis) (j : Checked Jwt) (s : Checked Storage)
    (u : Checked Web) (w : Checked Worker) (o : Checked Export) where
  abbrev together : Checked Config
  together =
      valid (λ a b c d e f g. record {
        service = a;
        redis = b;
        jwt = c;
        storage = d;
        web = e;
        worker = f;
        export = g;
      })
      <*> x
      <*> r
      <*> j
      <*> s
      <*> u
      <*> w
      <*> o

  together-valid :
      {c : Config}
      → together ≡ valid c
      → (x ≡ valid c.service)
        × (r ≡ valid c.redis)
        × (j ≡ valid c.jwt)
        × (s ≡ valid c.storage)
        × (w ≡ valid c.worker)
        × (o ≡ valid c.export)
  together-valid h = ground arith

module _ (number : Text → JsNumber) (v : Environment) where
  number_or-Holds :
      (d : ℕ) (path : Text) (max : Option ℕ) (o : Option Text)
      → 0 < d
      → past max d ≡ false
      → Holds (λ n. (0 < n) × (past max n ≡ false)) (number_or number v d path max o)
  unfolding number_or
  number_or-Holds d path max none some_d small = (some_d, small)
  number_or-Holds d path max (some s) some_d small = positive_number-Holds path max (number s)

  positive_or-Holds : (d : ℕ) (path : Text) → 0 < d → Holds Positive (positive_or number v d path)
  unfolding positive_or
  positive_or-Holds d path some_d =
      Holds-mono (λ n. (0 < n) × (past none n ≡ false)) Positive _ (λ n h. h.0)
        (number_or-Holds d path none (v path) some_d (unfold past in refl))

  optional_number-Holds :
      (path : Text) (o : Option Text)
      → Holds (λ o. (p : ℕ) → o ≡ some p → 0 < p) (optional_number number v path o)
  unfolding optional_number
  optional_number-Holds path none = λ p e. cc
  optional_number-Holds path (some s) =
      Holds-<*> (λ n. (0 < n) × (past none n ≡ false)) (λ o. (p : ℕ) → o ≡ some p → 0 < p)
        (valid some) (positive_number path none (number s))
        (λ n h p e. let same : n ≡ p = cc in rw (← same) h.0)
        (positive_number-Holds path none (number s))

  service-Holds : Holds (λ s. (0 < s.port) × (s.database_url ≢ [])) (service number v)
  unfolding service
  service-Holds =
      Holds-service
        (one_of node_envs (codes "NODE_ENV") (text_or (codes "development") (v (codes "NODE_ENV"))))
        (positive_or number v 5000 (codes "PORT"))
        (some_text (codes "DATABASE_URL") (v (codes "DATABASE_URL")))
        (positive_or-Holds 5000 (codes "PORT") (omega arith))
        (some_text-Holds (codes "DATABASE_URL") (v (codes "DATABASE_URL")))

  redis-Holds : Holds (λ r. 0 < r.port) (redis number v)
  unfolding redis
  redis-Holds = ground (arith, positive_or-Holds 6379 (codes "REDIS_PORT") (omega arith))

  jwt-Holds : Holds (λ j. (s : Text) → j.secret ≡ some s → 32 ≤ utf16_length s) (jwt number v)
  unfolding jwt
  jwt-Holds =
      Holds-<*> (λ o. (s : Text) → o ≡ some s → 32 ≤ utf16_length s)
        (λ j. (s : Text) → j.secret ≡ some s → 32 ≤ utf16_length s) (valid _) _ (λ o h. h)
        (long_text-Holds 32 (codes "JWT_SECRET") (v (codes "JWT_SECRET")))

  storage-Holds : Holds (λ s. (s.bucket ≢ []) × (0 < s.signed_url_ttl)) (storage number v)
  unfolding storage
  storage-Holds = ground (
    arith,
    positive_or-Holds 900 (codes "S3_SIGNED_URL_TTL") (omega arith),
    some_text-Holds (codes "S3_BUCKET") (v (codes "S3_BUCKET")),
  )

  worker-Holds :
      Holds
        (λ w.
          (0 < w.concurrency)
          × ((p : ℕ) → w.health_port ≡ some p → 0 < p)
          × ((s : Text) → w.wake_url ≡ some s → is_http_url s ≡ true))
        (worker number v)
  unfolding worker
  worker-Holds = ground (
    arith,
    positive_or-Holds 2 (codes "WORKER_CONCURRENCY") (omega arith),
    optional_number-Holds (codes "WORKER_HEALTH_PORT") (v (codes "WORKER_HEALTH_PORT")),
    http_url-Holds (codes "WORKER_WAKE_URL") (v (codes "WORKER_WAKE_URL")),
  )

  export-Holds :
      Holds
        (λ x. (0 < x.batch_size) × (x.batch_size ≤ 10000) × (0 < x.stall_timeout_seconds))
        (export number v)
  unfolding export past
  export-Holds = ground (
    arith,
    number_or-Holds 1000 (codes "EXPORT_BATCH_SIZE") (some 10000) (v (codes "EXPORT_BATCH_SIZE"))
        (omega arith) refl,
    positive_or-Holds 45 (codes "EXPORT_STALL_TIMEOUT_SECONDS") (omega arith),
  )

  -- Whatever the environment and however `Number` reads its texts: settings that are accepted have
  -- positive ports, concurrency and times, a database and a bucket, a batch size from 1 to 10,000, a
  -- secret of 32 characters or more if there is one, and a wake URL of http or https if there is one.
  pub load-IsSound : {c : Config} → load number v ≡ valid c → IsSound c
  unfolding load
  load-IsSound {c} h =
      let (x, r, j, s, w, o) =
        together-valid (service number v) (redis number v) (jwt number v) (storage number v)
          (web number v) (worker number v) (export number v) h in
      let (port, database_url) = Holds-valid _ _ x service-Holds in
      let (bucket, ttl) = Holds-valid _ _ s storage-Holds in
      let (concurrency, health_port, wake_url) = Holds-valid _ _ w worker-Holds in
      let (size, limit, timeout) = Holds-valid _ _ o export-Holds in
      record {
        port = port;
        database_url = database_url;
        redis_port = Holds-valid _ _ r redis-Holds;
        long_secret = Holds-valid _ _ j jwt-Holds;
        bucket = bucket;
        signed_url_ttl = ttl;
        concurrency = concurrency;
        health_port = health_port;
        wake_url = wake_url;
        batch_size = size;
        batch_limit = limit;
        stall_timeout = timeout;
      }
