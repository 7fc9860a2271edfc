-- ===== src/Runner.antt =====
-- server/src/services/exportRunner.service.ts: one run of an export job. Its steps are in
-- Runner/Steps, the loop over the batches in Runner/Loop.
pub mod Steps
pub mod Loop
pub mod Durable
pub mod Exact
pub mod Crash
pub mod Recovery
pub mod Honest
pub mod Verified
pub mod Reads
pub mod Batches
pub mod Fuel
pub mod Completion
use export_vault.Prelude.{
  ℕ, suc, ◌+◌, Bool, true, false, not, Option, none, some, List, [], ◌∷◌, ◌==◌, if◌then◌else◌,
}
use export_vault.Text.{Text}
use export_vault.Model.{ExportJob}
use export_vault.Model.Errors.{
  Message, AppError, export_integrity_error, plain, message, dataset_exhausted, row_count_mismatch,
  log_mismatch, verification_failed, job_missing, owned_by_live_worker, already_completed,
  was_cancelled, export_job_missing,
}
use export_vault.Model.Errors
use export_vault.World.{Env, M, ◌>>=◌, ◌>>◌, pure, throw, exit, try_catch, query}
use export_vault.Jobs.{find_job, status_eq}
use export_vault.Resume.{ResumeState}
use export_vault.Storage.{delete_chunks}
use export_vault.Verification.{VerificationResult}
use export_vault.Runner.Steps.{
  claim_job, fail_job, record_export_failure, load_state, reconcile_job_progress, set_status,
  assemble_final_csv, verify_export_file, set_file_key, set_cancelled, set_completed,
}
use export_vault.Runner.Loop.{
  LoopEnd, finished, cancelled_at, exhausted, out_of_fuel, Progress, batches,
}

pub data RunOutcome : Type 0 where
  completed cancelled : ℕ → RunOutcome
  failed : ℕ → Message → RunOutcome
  skipped : Message → RunOutcome

-- Each round of the loop that goes on exports a row or more.
abbrev pub enough_rounds : ExportJob → ℕ
enough_rounds job = suc job.requested_row_limit

abbrev pub begin_at : ResumeState → Progress
begin_at s = record {
  last_exported_id = s.last_exported_id;
  exported_row_count = s.rows_written;
  batch_number = s.next_batch_number;
}

module _ {e : Env} where
  -- await failJob(…); return { outcome: 'FAILED', … }
  unfoldable pub give_up : Text → ℕ → Message → M e RunOutcome
  give_up id exported reason = do
    fail_job id reason (export_integrity_error reason)
    pure (failed exported reason)

  -- What follows a verification.
  unfoldable pub conclude_run : ExportJob → ℕ → Text → VerificationResult → M e RunOutcome
  unfolding give_up
  conclude_run job exported key result =
      if not result.passed
      then (do
        set_file_key job.id key
        give_up job.id exported (verification_failed result.failure_reason))
      else do set_completed job.id key; delete_chunks job.id; pure (completed exported)

  -- From the end of the loop on: the cross-check, the assembly and the verification.
  unfoldable pub publish : ExportJob → ℕ → ResumeState → M e RunOutcome
  unfolding give_up conclude_run
  publish job exported final =
      if not (final.rows_written == job.requested_row_limit)
      then give_up job.id exported (log_mismatch final.rows_written job.requested_row_limit)
      else do
        set_status job.id Errors.verifying
        key ← assemble_final_csv job.id final.checkpoint_count
        result ← verify_export_file job.id key job.requested_row_limit job.snapshot_max_id
        conclude_run job exported key result

  unfoldable pub finish_run : ExportJob → ℕ → M e RunOutcome
  unfolding give_up publish
  finish_run job exported =
      if not (exported == job.requested_row_limit)
      then give_up job.id exported (row_count_mismatch exported job.requested_row_limit)
      else do final ← load_state job.id; publish job exported final

  unfoldable pub after_loop : ExportJob → LoopEnd → M e RunOutcome
  unfolding finish_run give_up
  after_loop job (finished exported) = finish_run job exported
  after_loop job (cancelled_at exported) = pure (cancelled exported)
  after_loop job (exhausted exported after) =
      give_up job.id exported
        (dataset_exhausted exported after job.snapshot_max_id job.requested_row_limit)
  after_loop job out_of_fuel = exit

  -- The body of the `try`.
  unfoldable pub run_claimed : ExportJob → M e RunOutcome
  unfolding after_loop
  run_claimed job = do
    resume ← load_state job.id
    reconcile_job_progress job.id resume
    end ← batches (enough_rounds job) job (begin_at resume)
    after_loop job end

  -- The `catch`: what `failJob` throws takes the place of the error.
  unfoldable pub on_error : ExportJob → AppError → M e RunOutcome
  on_error job error = do fail_job job.id (message error) error; throw error

  unfoldable pub run_found : ExportJob → M e RunOutcome
  unfolding run_claimed on_error
  run_found job =
      if status_eq job.status Errors.completed
      then pure (skipped already_completed)
      else if status_eq job.status Errors.cancelled
      then pure (skipped was_cancelled)
      else if job.cancel_requested
      then (do set_cancelled job.id; pure (cancelled job.exported_row_count))
      else do
        claimed ← claim_job job.id
        if not claimed
            then pure (skipped (owned_by_live_worker job.id job.status))
            else try_catch (run_claimed job) (on_error job)

  unfoldable pub run_job : Text → Option ExportJob → M e RunOutcome
  unfolding run_found
  run_job id none = do
    record_export_failure none export_job_missing (plain (job_missing id))
    pure (skipped (job_missing id))
  run_job id (some job) = run_found job

  unfoldable pub run_export_job : Text → M e RunOutcome
  unfolding run_job find_job
  run_export_job id = do found ← query (λ d. find_job id d.jobs); run_job id found
