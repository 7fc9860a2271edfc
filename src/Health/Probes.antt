-- ===== src/Health/Probes.antt =====
-- The probes, as server/src/controllers/health.controller.ts and workers/health.server.ts run them,
-- and the checks of the start-up in config/prisma.ts, config/redis.ts and services/storage.service.ts.
use export_vault.Prelude.{
  ℕ, Bool, true, false, not, ◌&&◌, ◌||◌, Option, none, some, ◌==◌, if◌then◌else◌,
}
use export_vault.Text.{Text, codes, text_eq}
use export_vault.Model.Errors.{AppError, plain, foreign}
use export_vault.Result.{Result}
use export_vault.World.{
  Env, M, ◌>>=◌, ◌>>◌, pure, throw, try_catch, query, read_store, on_store, on_jobs_queue,
}
use export_vault.Auth.{behind}

-- getQueueHealth of queues/export.queue.ts; a count that BullMQ leaves out is 0.
pub record QueueCounts : Type 0 where
  pub waiting : ℕ
  pub active : ℕ
  pub delayed : ℕ
  pub failed : ℕ
  pub completed : ℕ

-- What the probes ask of Redis and of the object store, and the HTTP status of an error of the store.
pub record Dependencies (e : Env) : Type 0 where
  pub ping : e.Queue → Result Text
  pub job_counts : e.Queue → Result QueueCounts
  pub head_bucket : e.Objects → Result (Unit {0})
  pub create_bucket : e.Objects → Result (Unit {0}) × e.Objects
  pub http_status : AppError → Option ℕ

pub data Check : Type 0 where
  fine : Check
  not_running : Check
  wrong_pong : Text → Check
  broken : AppError → Check

abbrev pub is_fine : Check → Bool
is_fine fine = true
is_fine not_running = false
is_fine (wrong_pong t) = false
is_fine (broken x) = false

abbrev pub pong : Text
pong = codes "PONG"

pub record Readiness : Type 0 where
  pub postgres : Check
  pub redis : Check
  pub storage : Check
  pub queue : Check

-- Object.values(checks).every((c) => c.ok)
abbrev pub answer_status : Readiness → ℕ
answer_status r =
    if is_fine r.postgres && (is_fine r.redis && (is_fine r.storage && is_fine r.queue))
    then 200
    else 503

abbrev pub has_status : ℕ → Option ℕ → Bool
has_status n none = false
has_status n (some m) = n == m

pub record WorkerHealth : Type 0 where
  pub worker : Check
  pub redis : Check
  pub postgres : Check
  pub queue : Check

abbrev pub worker_status : WorkerHealth → ℕ
worker_status h =
    if is_fine h.worker && (is_fine h.redis && (is_fine h.postgres && is_fine h.queue))
    then 200
    else 503

module _ {e : Env} (d : Dependencies e) where
  -- The `catch` of a probe notes the error.
  unfoldable pub probe : M e Check → M e Check
  probe m = try_catch m (λ x. pure (broken x))

  unfoldable pub probe_postgres : M e Check
  unfolding probe
  probe_postgres = probe (do query (λ db. tt {0}); pure fine)

  unfoldable pub judge_pong : Text → Check
  unfolding text_eq
  judge_pong t = if text_eq t pong then fine else wrong_pong t

  unfoldable pub probe_redis : M e Check
  unfolding probe judge_pong
  probe_redis = probe (do answer ← on_jobs_queue (λ q. (d.ping q, q)); pure (judge_pong answer))

  -- Only a 404 says that the object is not there.
  unfoldable pub object_exists : Text → M e Bool
  object_exists key =
      try_catch (do read_store (e.head_object key); pure true)
        (λ x. if has_status 404 (d.http_status x) then pure false else throw x)

  unfoldable pub probe_storage : M e Check
  unfolding probe object_exists
  probe_storage = probe (do object_exists (codes "healthcheck/.probe"); pure fine)

  unfoldable pub probe_queue : M e Check
  unfolding probe
  probe_queue = probe (do on_jobs_queue (λ q. (d.job_counts q, q)); pure fine)

  -- GET /health/ready of the API
  unfoldable pub readiness : M e Readiness
  unfolding probe_postgres probe_redis probe_storage probe_queue
  readiness = do
    postgres ← probe_postgres
    redis ← probe_redis
    storage ← probe_storage
    queue ← probe_queue
    pure (record { postgres = postgres; redis = redis; storage = storage; queue = queue })

  started : (path : Text) → Bool
  unfolding behind
  started path = elim (behind (codes "/health") path) [ none ↦ false | some rest ↦ true ]

  check_worker : Bool → Check
  check_worker running = if running then fine else not_running

  -- The server of a worker process; `none` is the answer 404.
  unfoldable pub worker_health : (is_get running : Bool) (path : Text) → M e (Option WorkerHealth)
  unfolding started check_worker probe_postgres probe_redis probe_queue
  worker_health is_get running path = if not is_get || not (started path) then pure none else do
    redis ← probe_redis
    postgres ← probe_postgres
    queue ← probe_queue
    pure (
        some (record {
          worker = check_worker running;
          redis = redis;
          postgres = postgres;
          queue = queue;
        }))

  unfoldable pub assert_database_connection : M e (Unit {0})
  assert_database_connection = query (λ db. tt)

  -- The error of a PING that is not answered with PONG has no number of its own.
  unfoldable pub assert_redis_connection : M e (Unit {0})
  unfolding text_eq
  assert_redis_connection = do
    answer ← on_jobs_queue (λ q. (d.ping q, q))
    if text_eq answer pong then pure tt else throw (plain (foreign 0))

  unfoldable pub assert_storage_ready : M e (Unit {0})
  assert_storage_ready = try_catch (read_store d.head_bucket) (λ x.
      if not (has_status 404 (d.http_status x)) && not (has_status 403 (d.http_status x))
      then throw x
      else on_store d.create_bucket)

  -- The start of the API (behind its secret) and of the worker, before anything is accepted.
  unfoldable pub start_up : M e (Unit {0})
  unfolding assert_database_connection assert_redis_connection assert_storage_ready
  start_up = do assert_database_connection; assert_redis_connection; assert_storage_ready
