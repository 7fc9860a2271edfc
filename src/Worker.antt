-- ===== src/Worker.antt =====
-- server/src/worker.ts and workers/export.worker.ts: the process that runs jobs, and what it does with
-- an entry of the queue. BullMQ gets what the processor of an entry throws, and then
-- calls the handler of 'failed' with it.
use export_vault.Prelude.{◌≡◌, ◌≢◌, ◌⊎◌, inl, inr, refl, some, List, [], ◌∷◌}
use export_vault.Text.{Text}
use export_vault.Model.{ExportJob}
use export_vault.Model.Errors.{AppError, queue_job_failed}
use export_vault.World.{
  Env, World, M, Out, returned, thrown, died, ◌>>=◌, ◌>>◌, pure, throw, try_catch, handle, continue,
}
use export_vault.World.Laws.{IsStore}
use export_vault.World.Survives.{
  Survives, Survives-bind, Survives-pure, Survives-throw, Survives-try_catch,
}
use export_vault.Runner.{run_export_job}
use export_vault.Runner.Steps.{record_export_failure}
use export_vault.Runner.Honest.{NotCompleted, CompletedOk, Respects}
use export_vault.Runner.Completion.{run_export_job-Ok, Leaves-always}
use export_vault.Runner.Completion.Concluded.{record_export_failure-Ok}
use export_vault.Health.Probes.{Dependencies, start_up}

module _ {e : Env} where
  -- The processor of an entry; what it throws goes to the queue's library.
  unfoldable pub process_entry : Text → M e (Unit {0})
  process_entry id = do run_export_job id; pure tt

  -- The handler of 'failed'.
  unfoldable pub on_failed : Text → AppError → M e (Unit {0})
  unfolding record_export_failure
  on_failed id x = record_export_failure (some id) queue_job_failed x

  -- What becomes of an entry: the library calls the handler with what the processor throws, and takes
  -- the entry as failed with that error.
  unfoldable pub consume_job : Text → M e (Unit {0})
  unfolding process_entry on_failed
  consume_job id = try_catch (process_entry id) (λ x. do on_failed id x; throw x)

  -- The entries that a process gets until it ends, one after another, failed or not.
  unfoldable pub consume_jobs : List Text → M e (Unit {0})
  unfolding consume_job
  consume_jobs [] = pure tt
  consume_jobs (id ∷ ids) = do try_catch (consume_job id) (λ x. pure tt); consume_jobs ids

  -- The process: no entry is taken before every dependency has answered.
  unfoldable pub worker_process : Dependencies e → List Text → M e (Unit {0})
  unfolding consume_jobs start_up
  worker_process d ids = do start_up d; consume_jobs ids

  handle_settles :
      {A : Type 0} (o : Out A) (h : AppError → M e A) (w : World e)
      → ((x : AppError) (v : World e) (y : AppError) → (h x v).0 ≢ thrown y)
      → (y : AppError) → (handle o h w).0 ≢ thrown y
  handle_settles (returned a) h w settles y = λ p. cc
  handle_settles (thrown x) h w settles y = settles x w y
  handle_settles died h w settles y = λ p. cc

  pure_settles : (x : AppError) (v : World e) (y : AppError) → (pure {e = e} tt v).0 ≢ thrown y
  unfolding pure
  pure_settles x v y = λ p. cc

  on_failed_settles :
      (id : Text) (x : AppError) (v : World e) (y : AppError) → (on_failed id x v).0 ≢ thrown y
  unfolding on_failed record_export_failure try_catch
  on_failed_settles id x v y = handle_settles _ _ _ pure_settles y

  then_throw :
      (o : Out (Unit {0})) (x : AppError) (v : World e)
      → ((y : AppError) → o ≢ thrown y)
      → ((continue o (λ _. throw {A = Unit {0}} x) v).0 ≡ thrown x)
        ⊎ ((continue o (λ _. throw {A = Unit {0}} x) v).0 ≡ died)
  unfolding throw
  then_throw (returned a) x v settles = inl refl
  then_throw (thrown y) x v settles = absurd (settles y refl)
  then_throw died x v settles = inr refl

  handled :
      (id : Text) (o : Out (Unit {0})) (v : World e)
      → ((handle o (λ x. on_failed id x >>= λ _. throw {A = Unit {0}} x) v).0 ≡ o)
        ⊎ ((handle o (λ x. on_failed id x >>= λ _. throw {A = Unit {0}} x) v).0 ≡ died)
  unfolding ◌>>=◌
  handled id (returned a) v = inl refl
  handled id (thrown x) v =
      then_throw (on_failed id x v).0 x (on_failed id x v).1 (on_failed_settles id x v)
  handled id died v = inl refl

-- Let no row of a job be COMPLETED, let the other processes complete none of its rows and keep what
-- was ordered and the file key of a COMPLETED row, and let the store keep what it is sent. Whatever
-- calls fail while a worker deals with
-- the entry of the job: behind it a row of the job that is COMPLETED names the final key as its file,
-- under which the store holds the export that was ordered; and what the queue's library gets is
-- the outcome of the processor, whatever becomes of the record of a failure, unless the process dies.
pub consume_job-CompletedOk :
    {e : Env} (job : ExportJob) (w : World e)
    → IsStore e
    → Respects e job
    → NotCompleted job w.db
    → CompletedOk e job (consume_job job.id w).1
      × (((consume_job job.id w).0 ≡ (process_entry job.id w).0)
          ⊎ ((consume_job job.id w).0 ≡ died))
unfolding consume_job process_entry on_failed try_catch
consume_job-CompletedOk {e} job w store rely h =
    let Ok = CompletedOk e job in
    let s : Survives {e = e} (λ v. NotCompleted job v.db) Ok (λ _ v. Ok v) (consume_job job.id) =
      Survives-try_catch Ok (λ v. NotCompleted job v.db) Ok _ _ _
        (Survives-bind Ok (λ v. NotCompleted job v.db) (λ _ v. Ok v) _ _ _
          (run_export_job-Ok job store rely) (λ _. Survives-pure Ok Ok _ tt (λ v k. k)))
        (λ v k. k)
        (λ x.
          Survives-bind Ok Ok (λ _ v. Ok v) _ _ _
            (record_export_failure-Ok job store rely (some job.id) queue_job_failed x)
            (λ _. Survives-throw Ok Ok _ x (λ v k. k))) in
    (
      Leaves-always Ok (consume_job job.id w).0 (consume_job job.id w).1 (s.at w h),
      handled job.id (process_entry job.id w).0 (process_entry job.id w).1,
    )
