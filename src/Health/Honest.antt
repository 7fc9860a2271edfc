-- ===== src/Health/Honest.antt =====
-- When the API calls itself ready (server/src/controllers/health.controller.ts).
use export_vault.Prelude.{
  ℕ, ◌≡◌, ◌≢◌, ◌↔◌, ◌⊎◌, inl, inr, refl, ap, true, false, Bool, Option, none, some, arith,
  Bool-cases, if◌then◌else◌,
}
use export_vault.Text.{Text, codes, text_eq, text_eq_iff}
use export_vault.Model.Errors.{plain, foreign}
use export_vault.Result.{Result, ok, err}
use export_vault.World.{
  Env, World, M, Fault, refused, reply_lost, death, returned, arrive, attempt, call, query,
  on_jobs_queue, read_store, try_catch, pure, throw, ◌>>=◌, from_result,
}
use export_vault.Health.Probes.{
  Dependencies, Check, fine, wrong_pong, broken, is_fine, pong, judge_pong, has_status, QueueCounts,
  Readiness, answer_status, probe, probe_postgres, probe_redis, object_exists, probe_storage,
  probe_queue, readiness,
}

-- What a call that only reads gives back, unless it finds the process dead.
abbrev answer : {A : Type 0} → Option Fault → Result A → Result A
answer none r = r
answer (some (refused n)) r = err (plain (foreign n))
answer (some (reply_lost n)) r = err (plain (foreign n))
answer (some death) r = err (plain (foreign 0))

attempt_read :
    {e : Env} {A : Type 0} (f : Option Fault) (op : World e → Result A × World e) (r : Result A)
    (w : World e)
    → f ≢ some death
    → op w ≡ (r, w)
    → attempt f op w ≡ (from_result (answer f r), w)
attempt_read none op r w alive reads = rw reads refl
attempt_read (some (refused n)) op r w alive reads = refl
attempt_read (some (reply_lost n)) op r w alive reads = rw reads refl
attempt_read (some death) op r w alive reads = absurd (alive refl)

-- The check that a probe notes.
abbrev check_of : {A : Type 0} → (A → Check) → Result A → Check
check_of f (ok a) = f a
check_of f (err x) = broken x

probe_read :
    {e : Env} (d : Dependencies e) {A : Type 0} (m : M e A) (f : A → Check) (r : Result A)
    (w w' : World e)
    → m w ≡ (from_result r, w')
    → probe d (m >>= λ a. pure (f a)) w ≡ (returned (check_of f r), w')
unfolding probe try_catch pure ◌>>=◌
probe_read d m f (ok a) w w' h = rw h refl
probe_read d m f (err x) w w' h = rw h refl

-- What `objectExists` makes of the HEAD.
abbrev exists_of : {e : Env} → Dependencies e → Result (Option ℕ) → Result Bool
exists_of d (ok size) = ok true
exists_of d (err x) = if has_status 404 (d.http_status x) then ok false else err x

object_exists_read :
    {e : Env} (d : Dependencies e) (key : Text) (r : Result (Option ℕ)) (w w' : World e)
    → read_store (e.head_object key) w ≡ (from_result r, w')
    → object_exists d key w ≡ (from_result (exists_of d r), w')
unfolding object_exists try_catch pure throw ◌>>=◌
object_exists_read d key (ok size) w w' h = rw h refl
object_exists_read d key (err x) w w' h = elim (Bool-cases (has_status 404 (d.http_status x))) [
  | inl absent ↦ rw h (rw absent refl)
  | inr other ↦ rw h (rw other refl)
]

abbrev probe_key : Text
probe_key = codes "healthcheck/.probe"

module _ {e : Env} (d : Dependencies e) (w : World e) (alive : e.fault w.calls ≢ some death) where
  abbrev fault : Option Fault
  fault = e.fault w.calls

  postgres_check :
      probe_postgres d w ≡ (returned (check_of (λ _. fine) (answer fault (ok (tt {0})))), arrive w)
  unfolding probe_postgres query call
  postgres_check =
      probe_read d (query (λ db. tt {0})) (λ _. fine) (answer fault (ok (tt {0}))) w (arrive w)
        (attempt_read fault _ (ok tt) (arrive w) alive refl)

  redis_check :
      probe_redis d w
      ≡ (returned (check_of (judge_pong d) (answer fault (d.ping w.queue))), arrive w)
  unfolding probe_redis on_jobs_queue call
  redis_check =
      probe_read d (on_jobs_queue (λ q. (d.ping q, q))) (judge_pong d)
        (answer fault (d.ping w.queue)) w (arrive w)
        (attempt_read fault _ (d.ping w.queue) (arrive w) alive refl)

  queue_check :
      probe_queue d w
      ≡ (returned (check_of (λ _. fine) (answer fault (d.job_counts w.queue))), arrive w)
  unfolding probe_queue on_jobs_queue call
  queue_check =
      probe_read d (on_jobs_queue (λ q. (d.job_counts q, q))) (λ _. fine)
        (answer fault (d.job_counts w.queue)) w (arrive w)
        (attempt_read fault _ (d.job_counts w.queue) (arrive w) alive refl)

  storage_check : probe_storage d w ≡ (
    returned
        (check_of (λ _. fine) (exists_of d (answer fault (e.head_object probe_key w.objects)))),
    arrive w,
  )
  unfolding probe_storage read_store call
  storage_check =
      probe_read d (object_exists d probe_key) (λ _. fine)
        (exists_of d (answer fault (e.head_object probe_key w.objects))) w (arrive w)
        (object_exists_read d probe_key (answer fault (e.head_object probe_key w.objects)) w
          (arrive w)
          (attempt_read fault _ (e.head_object probe_key w.objects) (arrive w) alive refl))

abbrev after1 : {e : Env} → World e → World e
after1 w = arrive w

abbrev after2 : {e : Env} → World e → World e
after2 w = arrive (arrive w)

abbrev after3 : {e : Env} → World e → World e
after3 w = arrive (arrive (arrive w))

-- What has to be so for the API to be ready: the calls of the database and of Redis go through, Redis
-- answers its PING with PONG and counts the entries of the queue, and the HEAD finds an object or a 404.
pub record IsReady {e : Env} (d : Dependencies e) (w : World e) : Type 0 where
  pub database : e.fault w.calls ≡ none
  pub redis : (e.fault (after1 w).calls ≡ none) × (d.ping w.queue ≡ ok pong)
  pub storage :
      (b : Bool) × (exists_of d
          (answer (e.fault (after2 w).calls) (e.head_object probe_key w.objects))
        ≡ ok b)
  pub queue :
      (e.fault (after3 w).calls ≡ none) × ((n : QueueCounts) × (d.job_counts w.queue ≡ ok n))

answer_ok :
    {A : Type 0} (f : Option Fault) (r : Result A) (a : A)
    → answer f r ≡ ok a
    → (f ≡ none) × (r ≡ ok a)
answer_ok none r a h = (refl, h)
answer_ok (some (refused n)) r a h = cc
answer_ok (some (reply_lost n)) r a h = cc
answer_ok (some death) r a h = cc

check_of_fine :
    {A : Type 0} (r : Result A) → is_fine (check_of (λ _. fine) r) ≡ true → (a : A) × (r ≡ ok a)
check_of_fine (ok a) h = (a, refl)
check_of_fine (err x) h = cc

pong_fine :
    {e : Env} (d : Dependencies e) (r : Result Text)
    → is_fine (check_of (judge_pong d) r) ≡ true
    → r ≡ ok pong
unfolding judge_pong
pong_fine d (ok t) h = elim (Bool-cases (text_eq t pong)) [
  | inl same ↦ ap ok ((text_eq_iff t pong).0 same)
  | inr other ↦ absurd (not_fine (text_eq t pong) other h)
]
  where
    not_fine : (b : Bool) → b ≡ false → is_fine (if b then fine else wrong_pong t) ≡ true → ⊥
    not_fine b no_pong good = ground arith
pong_fine d (err x) h = cc

judge_pong-pong : {e : Env} (d : Dependencies e) → judge_pong d pong ≡ fine
unfolding judge_pong text_eq
judge_pong-pong d = refl

status_of_all :
    (a b c d : Check)
    → answer_status (record { postgres = a; redis = b; storage = c; queue = d }) ≡ 200
    → (is_fine a ≡ true) × (is_fine b ≡ true) × (is_fine c ≡ true) × (is_fine d ≡ true)
status_of_all a b c d h = ground arith

module _ {e : Env} (d : Dependencies e) (w : World e)
    (alive : (n : ℕ) → e.fault n ≢ some death) where
  abbrev noted : Readiness
  noted = record {
    postgres = check_of (λ _. fine) (answer (e.fault w.calls) (ok (tt {0})));
    redis = check_of (judge_pong d) (answer (e.fault (after1 w).calls) (d.ping w.queue));
    storage =
        check_of (λ _. fine)
          (exists_of d (answer (e.fault (after2 w).calls) (e.head_object probe_key w.objects)));
    queue = check_of (λ _. fine) (answer (e.fault (after3 w).calls) (d.job_counts w.queue));
  }

  readiness-noted : (readiness d w).0 ≡ returned noted
  unfolding readiness ◌>>=◌ pure
  readiness-noted = rw (postgres_check d w (alive _)) (
      rw (redis_check d (after1 w) (alive _))
        (rw (storage_check d (after2 w) (alive _)) (rw (queue_check d (after3 w) (alive _)) refl)))

  -- A readiness probe always answers, unless the process dies, and it answers 200 exactly if the
  -- calls of the database and of Redis go through, Redis says PONG, the HEAD finds an object or a 404,
  -- and the queue can be counted; else it answers 503.
  pub readiness-IsReady :
      (r : Readiness) × ((readiness d w).0 ≡ returned r)
      × ((answer_status r ≡ 200) ↔ IsReady d w)
      × ((answer_status r ≡ 200) ⊎ (answer_status r ≡ 503))
  readiness-IsReady = (noted, readiness-noted, (to, from), ground arith)
    where
      to : answer_status noted ≡ 200 → IsReady d w
      to h =
          let (p, r, s, q) = status_of_all noted.postgres noted.redis noted.storage noted.queue h in
          let (_, called) = check_of_fine _ p in
          let (n, counts) = check_of_fine _ q in
          let (q_called, q_counted) = answer_ok _ _ n counts in
          record {
            database = (answer_ok (e.fault w.calls) (ok (tt {0})) tt called).0;
            redis = answer_ok _ _ pong (pong_fine d _ r);
            storage = check_of_fine _ s;
            queue = (q_called, (n, q_counted));
          }

      from : IsReady d w → answer_status noted ≡ 200
      from h =
          let (n, counts) = h.queue.1 in
          let (b, found) = h.storage in
          rw h.database (
            rw h.redis.0
              (rw h.redis.1 (rw (judge_pong-pong d) (rw found (rw h.queue.0 (rw counts refl))))))
