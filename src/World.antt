-- ===== src/World.antt =====
-- What a process of the server acts on: the database, the object store, the queue, and the calls
-- by which it reaches them. Each call is one step: first the other processes act, then the call
-- succeeds, is refused, takes effect and loses its reply, or finds that the process is dead.

pub mod Keeps
pub mod Safe
pub mod Returns
pub mod Runs
pub mod Laws
pub mod Survives
use export_vault.Prelude.{ℕ, suc, ◌+◌, Bool, Option, none, some, List, [], ◌∷◌}
use export_vault.Text.{Text}
use export_vault.Model.{RawRecordRow, ExportJob, ExportCheckpoint, ExportFailure, User}
use export_vault.Model.Errors.{AppError, plain, foreign}
use export_vault.Verification.{VerificationResult}
use export_vault.Result.{Result, ok, err}

-- A row of `export_verifications`.
pub record ExportVerification : Type 0 where
  pub export_job_id : Text
  pub result : VerificationResult
  pub created_at : ℕ

-- The tables, the newest row of each log first, and the clock that `new Date()` reads.
pub record Db : Type 0 where
  pub records : List RawRecordRow
  pub jobs : List ExportJob
  pub checkpoints : List ExportCheckpoint
  pub failures : List ExportFailure
  pub verifications : List ExportVerification
  pub users : List User
  pub now : ℕ

pub data Fault : Type 0 where
  -- the call throws and has done nothing; it has its effect and then throws; the process is killed
  refused reply_lost : ℕ → Fault
  death : Fault

-- One answer of ListObjectsV2.
pub record Listing : Type 0 where
  pub keys : List Text
  pub next_token : Option Text

-- What is not in the repository: the object store behind the S3 client, the queue behind BullMQ,
-- csv-parse, the hash, the uuid generator and the signer of URLs; the faults; the other processes; and config/env.ts.
pub record Env : Type 1 where
  pub Objects : Type 0
  pub put_object : Text → List ℕ → Objects → Result (Unit {0}) × Objects
  pub upload : Text → List ℕ → Objects → Result (Unit {0}) × Objects
  pub head_object : Text → Objects → Result (Option ℕ)
  pub get_object : Text → Objects → Result (Option (List ℕ))
  pub list_objects : Text → Option Text → Objects → Result Listing
  pub delete_objects : List Text → Objects → Result (Unit {0}) × Objects
  pub Queue : Type 0
  -- whether there is an entry with that id, and whether its state is 'active'
  pub get_job : Text → Queue → Result Bool
  pub get_state : Text → Queue → Result Bool
  pub remove_entry : Text → Queue → Result (Unit {0}) × Queue
  pub add_entry : Text → Queue → Result (Unit {0}) × Queue
  pub parse : List ℕ → Result (List (List Text))
  pub sha256 : List ℕ → Text
  pub new_uuid : ℕ → Text
  pub sign_url : Text → Text → Result Text
  pub fault : ℕ → Option Fault
  pub others : ℕ → Db → Db
  pub max_pages : ℕ
  pub export_batch_size : ℕ
  pub stall_timeout_ms : ℕ
  pub crash_after_rows : Option ℕ
  pub has_wake_url : Bool
  pub signed_url_ttl : ℕ

pub data Out {ℓ} (A : Type ℓ) : Type ℓ where
  returned : A → Out A
  thrown : AppError → Out A
  -- the process ended inside the call
  died : Out A

module _ (e : Env) where
  pub record World : Type 0 where
    pub db : Db
    pub objects : e.Objects
    pub queue : e.Queue
    -- queues/workerWake.ts: whether a wake request is in flight, and how many were sent
    pub in_flight : Bool
    pub wakes_sent : ℕ
    -- the number of calls so far
    pub calls : ℕ

abbrev pub from_result : {A : Type 0} → Result A → Out A
from_result (ok a) = returned a
from_result (err x) = thrown x

abbrev pub M : Env → Type 0 → Type 0
M e A = World e → Out A × World e

module _ {e : Env} where
  unfoldable pub pure : {A : Type 0} → A → M e A
  pure a w = (returned a, w)

  unfoldable pub throw : {A : Type 0} → AppError → M e A
  throw x w = (thrown x, w)

  -- process.exit
  unfoldable pub exit : {A : Type 0} → M e A
  exit w = (died, w)

  abbrev pub continue : {A B : Type 0} → Out A → (A → M e B) → M e B
  continue (returned a) f w = f a w
  continue (thrown x) f w = (thrown x, w)
  continue died f w = (died, w)

  infixl 5 ◌>>=◌ ◌>>◌
  unfoldable pub ◌>>=◌ : {A B : Type 0} → M e A → (A → M e B) → M e B
  ◌>>=◌ m f w = let (o, w') = m w in continue o f w'

  abbrev pub ◌>>◌ : {A B : Type 0} → M e A → M e B → M e B
  m >> k = m >>= λ _. k

  abbrev pub handle : {A : Type 0} → Out A → (AppError → M e A) → M e A
  handle (returned a) h w = (returned a, w)
  handle (thrown x) h w = h x w
  handle died h w = (died, w)

  -- try { m } catch (error) { h(error) }
  unfoldable pub try_catch : {A : Type 0} → M e A → (AppError → M e A) → M e A
  try_catch m h w = let (o, w') = m w in handle o h w'

  -- `new Date()`, and an id that Prisma makes; neither is a call
  unfoldable pub read_clock : M e ℕ
  read_clock w = (returned w.db.now, w)

  unfoldable pub fresh_id : M e Text
  fresh_id w = (returned (e.new_uuid w.calls), w)

  unfoldable pub lift : {A : Type 0} → Result A → M e A
  lift r w = (from_result r, w)

  -- One call, by what it does if nothing is in the way. The other processes come first.
  abbrev pub attempt : {A : Type 0} → Option Fault → (World e → Result A × World e) → M e A
  attempt none op w = let (r, w') = op w in (from_result r, w')
  attempt (some (refused n)) op w = (thrown (plain (foreign n)), w)
  attempt (some (reply_lost n)) op w = (thrown (plain (foreign n)), (op w).1)
  attempt (some death) op w = (died, w)

  abbrev pub arrive : World e → World e
  arrive w = record w { db = e.others w.calls w.db; calls = suc w.calls }

  unfoldable pub call : {A : Type 0} → (World e → Result A × World e) → M e A
  call op w = attempt (e.fault w.calls) op (arrive w)

  abbrev pub on_db : {A : Type 0} → (Db → Result A × Db) → World e → Result A × World e
  on_db op w = let (r, d) = op w.db in (r, record w { db = d })

  abbrev pub on_objects :
      {A : Type 0} → (e.Objects → Result A × e.Objects) → World e → Result A × World e
  on_objects op w = let (r, o) = op w.objects in (r, record w { objects = o })

  abbrev pub on_queue : {A : Type 0} → (e.Queue → Result A × e.Queue) → World e → Result A × World e
  on_queue op w = let (r, q) = op w.queue in (r, record w { queue = q })

  unfoldable pub transact : {A : Type 0} → (Db → Result A × Db) → M e A
  unfolding call
  transact op = call (on_db op)

  unfoldable pub query : {A : Type 0} → (Db → A) → M e A
  unfolding call
  query f = call (on_db (λ d. (ok (f d), d)))

  unfoldable pub on_store : {A : Type 0} → (e.Objects → Result A × e.Objects) → M e A
  unfolding call
  on_store op = call (on_objects op)

  unfoldable pub read_store : {A : Type 0} → (e.Objects → Result A) → M e A
  unfolding call
  read_store f = call (on_objects (λ o. (f o, o)))

  unfoldable pub on_jobs_queue : {A : Type 0} → (e.Queue → Result A × e.Queue) → M e A
  unfolding call
  on_jobs_queue op = call (on_queue op)
