-- ===== src/Runner/Completion.antt =====
-- A job is only COMPLETED with its export in the store: the end of a run, and the whole of
-- `runExportJob` (server/src/services/exportRunner.service.ts).
pub mod Concluded
pub mod Claimed
pub mod Same
use export_vault.Prelude.{
  ℕ, ◌≡◌, ◌≢◌, sym, ◌∙◌, refl, ap, true, not, ◌==◌, ◌++◌, subst, Option, none, some, List, arith,
  inl, inr, Option-cases, All, All-mono,
}
use export_vault.Text.{Text}
use export_vault.Model.{ExportJob}
use export_vault.Model.Errors.{Message, AppError, FailureType, export_integrity_error}
use export_vault.Model.Errors
use export_vault.Result.{Result}
use export_vault.World.{Env, Db, World, M, Out, returned, thrown, died, arrive}
use export_vault.World.Laws.{IsStore}
use export_vault.World.Keeps.{Keeps-query}
use export_vault.World.Safe.{Safe, Safe-pure, Safe-bind}
use export_vault.World.Survives.{
  Survives, Leaves, Leaves-result, Survives-pure, Survives-throw, Survives-exit, Survives-if,
  Survives-bind, Survives-mono, Survives-pre, Survives-given, Survives-transact, Survives-try_catch,
  Survives-Keeps, Survives-worse,
}
use export_vault.Jobs.{status_eq, find_job, update_job, touched}
use export_vault.Jobs.Laws.{update_job-All, find_job-All}
use export_vault.Resume.{ResumeState}
use export_vault.Storage.{final_key, chunk_prefix, delete_chunks}
use export_vault.Storage.Keys.{chunk_keys_apart}
use export_vault.Storage.Survives.{delete_chunks-Survives}
use export_vault.Verification.{VerificationResult}
use export_vault.Runner.{
  give_up, conclude_run, publish, finish_run, after_loop, run_claimed, on_error, run_found, run_job,
  run_export_job, begin_at, enough_rounds,
}
use export_vault.Runner.Honest.{
  FileAt, Filed, RowOk, RowsOk, RowsOk-mono, NotCompleted, CompletedOk, Respects, KeepsRow-RowOk,
}
use export_vault.Runner.Steps.{
  record_export_failure, fail_job, to_failed, set_completed, to_completed,
}
use export_vault.Runner.Batches.{batches-Safe}
use export_vault.Runner.Loop.{LoopEnd, finished, cancelled_at, exhausted, out_of_fuel}
use export_vault.Runner.Reads.{verify_export_file-Reads}
use export_vault.Runner.Verified.{
  claim_job-Safe, record_export_failure-Safe, fail_job-Safe, load_state-Safe, fails,
  reconcile_job_progress-Safe, set_verifying-Safe, set_cancelled-Safe, set_file_key-Safe,
  assemble_final_csv-Keeps,
}
use export_vault.Runner.Completion.Concluded.{Safe-Ok, Low-Ok}
use export_vault.Runner.Completion.Claimed.{run_found-Ok}
use export_vault.Runner.Completion.Same.{
  IsSame, RowsOk-same, Respects-same, CompletedOk-same, FoundOk, found_ok,
}

run_job-Ok :
    {e : Env} (job : ExportJob)
    → IsStore e
    → Respects e job
    → (id : Text) (found : Option ExportJob) → FoundOk job found
    → Survives {e = e}
        (λ w. NotCompleted job w.db)
        (CompletedOk e job)
        (λ _ w. CompletedOk e job w)
        (run_job id found)
unfolding run_job
run_job-Ok job store rely id none same = Safe-Ok job store rely _ (
    Safe-bind (NotCompleted job) _ _
      (record_export_failure-Safe _ (λ key. ⊥) job (rely (λ key. ⊥)) none _ _)
      (λ _. Safe-pure (NotCompleted job) _))
run_job-Ok {e} job store rely id (some j) same =
    Survives-pre (CompletedOk e job) (λ w. NotCompleted j w.db) (λ _ w. CompletedOk e job w) _
      (λ w h. RowsOk-same (λ key. ⊥) w.db same h)
      (Survives-mono (CompletedOk e job) (λ w. NotCompleted j w.db) (λ _ w. CompletedOk e j w)
        (λ _ w. CompletedOk e job w) _
        (Survives-worse (CompletedOk e j) (CompletedOk e job) (λ w. NotCompleted j w.db)
          (λ _ w. CompletedOk e j w) _ (run_found-Ok j store (Respects-same e same rely))
          (λ w. CompletedOk-same e w same))
        (λ _ w. CompletedOk-same e w same))

pub Leaves-always :
    {e : Env} {A : Type 0} (I : World e → Type 0) (o : Out A) (w : World e)
    → Leaves I (λ _ v. I v) o w
    → I w
Leaves-always I (returned a) w h = h
Leaves-always I (thrown x) w h = h
Leaves-always I died w h = h

pub run_export_job-Ok :
    {e : Env} (job : ExportJob)
    → IsStore e
    → Respects e job
    → Survives {e = e}
        (λ w. NotCompleted job w.db)
        (CompletedOk e job)
        (λ _ w. CompletedOk e job w)
        (run_export_job job.id)
unfolding run_export_job
run_export_job-Ok {e} job store rely =
    Survives-bind (CompletedOk e job) (λ w. NotCompleted job w.db)
      (λ found w. FoundOk job found × NotCompleted job w.db) _ _ _
      (Survives-Keeps (NotCompleted job) (CompletedOk e job) (FoundOk job) _ (Low-Ok job store rely)
        (Keeps-query (NotCompleted job) (rely (λ key. ⊥)) (FoundOk job) _ (found_ok job)))
      (λ found.
        Survives-given (CompletedOk e job) (λ w. NotCompleted job w.db) _ _
          (run_job-Ok job store rely job.id found))

-- Let no row of a job be COMPLETED, let the other processes complete none of its rows and keep
-- what was ordered and the file key of a COMPLETED row, and let the store keep what it is sent.
-- Whatever calls of a run fail, lose their
-- reply or find the process dead: behind the run, a row of the job that is COMPLETED names the final
-- key of the job as its file, and under that key the store holds bytes that csv-parse reads as the
-- header and as many rows as were ordered, their ids strictly ascending within the snapshot.
pub run_export_job-CompletedOk :
    {e : Env} (job : ExportJob) (w : World e)
    → IsStore e
    → Respects e job
    → NotCompleted job w.db
    → CompletedOk e job (run_export_job job.id w).1
run_export_job-CompletedOk {e} job w store rely h =
    Leaves-always (CompletedOk e job) (run_export_job job.id w).0 (run_export_job job.id w).1
      ((run_export_job-Ok job store rely).at w h)
