-- ===== src/ExportService.antt =====
-- server/src/services/export.service.ts: what the API does with a job.
pub mod Access
pub mod Dashboard
pub mod Recheck
pub mod Honest
use export_vault.Prelude.{
  ℕ, ◌+◌, Bool, true, false, not, ◌&&◌, Option, none, some, List, [], ◌∷◌, ◌++◌, leb, ltb, ◌==◌,
  if◌then◌else◌,
}
use export_vault.Prelude.Int.{ℤ, pos, negsuc}
use export_vault.Text.{Text, codes, text_eq}
use export_vault.Model.{ExportJob}
use export_vault.Model.Errors.{
  ExportStatus, AppError, validation_error, forbidden_error, not_found_error, conflict_error,
  row_limit_not_positive, row_limit_too_high, too_few_records, job_not_found, nothing_to_resume,
  cancelled_for_good, cannot_resume_while, cannot_cancel_completed, cannot_cancel_while,
  not_completed, no_file_key, not_verified,
}
use export_vault.Model.Errors
use export_vault.Result.{ok}
use export_vault.World.{
  Env, Db, M, ExportVerification, ◌>>=◌, ◌>>◌, pure, throw, lift, transact, query, fresh_id,
}
use export_vault.Jobs.{find_job, update_job, includes, status_eq}
use export_vault.Records.{capture_snapshot_max_id, count_records_within_snapshot}
use export_vault.Queue.{enqueue_export_job}

-- An argument of type `number`.
pub data Number : Type 0 where
  integer : ℤ → Number
  fractional : Number

abbrev pub max_row_limit : ℕ
max_row_limit = 50000

abbrev pub resumable_for_user : List ExportStatus
resumable_for_user =
    Errors.interrupted ∷ Errors.failed ∷ Errors.pending ∷ Errors.queued ∷ Errors.resuming ∷ []

abbrev pub cancellable : List ExportStatus
cancellable =
    Errors.pending ∷ Errors.queued ∷ Errors.running ∷ Errors.resuming ∷ Errors.interrupted ∷ []

abbrev pub new_job : (id user : Text) (snapshot limit batch now : ℕ) → ExportJob
new_job id user snapshot limit batch now = record {
  id = id;
  user_id = user;
  status = Errors.pending;
  snapshot_max_id = snapshot;
  requested_row_limit = limit;
  last_exported_id = none;
  exported_row_count = 0;
  batch_size = batch;
  file_key = none;
  file_url = none;
  started_at = none;
  completed_at = none;
  failed_at = none;
  error_message = none;
  cancel_requested = false;
  created_at = now;
  updated_at = now;
}

abbrev pub to_resuming : ℕ → ExportJob → ExportJob
to_resuming now j = record j {
  status = Errors.resuming;
  error_message = none;
  failed_at = none;
  cancel_requested = false;
}

-- A RUNNING job is only flagged; its worker stops between two batches.
abbrev pub to_cancel : Bool → ℕ → ExportJob → ExportJob
to_cancel true now j = record j { cancel_requested = true }
to_cancel false now j = record j {
  cancel_requested = true;
  status = Errors.cancelled;
  completed_at = some now;
}

newer : ExportVerification → Option ExportVerification → Option ExportVerification
newer v none = some v
newer v (some u) = if ltb v.created_at u.created_at then some u else some v

-- The verification of the job with the greatest `created_at`; of several, the one written last.
unfoldable pub latest_verification : Text → List ExportVerification → Option ExportVerification
unfolding text_eq newer
latest_verification id [] = none
latest_verification id (v ∷ vs) =
    let older = latest_verification id vs in
    if text_eq v.export_job_id id then newer v older else older

pub record Download : Type 0 where
  pub url : Text
  pub filename : Text
  pub expires_in_seconds : ℕ
  pub file_bytes : ℕ
  pub sha256 : Text

-- `export-${exportJobId}.csv`
abbrev pub file_name : ExportJob → Text
file_name job = codes "export-" ++ (job.id ++ codes ".csv")

module _ {e : Env} where
  unfoldable pub create_checked : Text → ℕ → M e ExportJob
  create_checked user limit = do
    snapshot ← query (λ d. capture_snapshot_max_id d.records)
    available ← query (λ d. count_records_within_snapshot snapshot d.records)
    if ltb available limit
        then throw (conflict_error (too_few_records available snapshot limit))
        else do
          id ← fresh_id
          transact (λ d. (
            ok tt,
            record d { jobs = new_job id user snapshot limit e.export_batch_size d.now ∷ d.jobs },
          ))
          enqueue_export_job id
          transact (update_job id (λ now j. record j { status = Errors.queued }))

  unfoldable pub create_export_job : Text → Number → M e ExportJob
  unfolding create_checked capture_snapshot_max_id count_records_within_snapshot
  create_export_job user fractional = throw (validation_error row_limit_not_positive)
  create_export_job user (integer (negsuc n)) = throw (validation_error row_limit_not_positive)
  create_export_job user (integer (pos n)) =
      if n == 0
      then throw (validation_error row_limit_not_positive)
      else if ltb max_row_limit n
      then throw (validation_error row_limit_too_high)
      else create_checked user n

  unfoldable pub owned_by : Text → Option ExportJob → M e ExportJob
  unfolding text_eq
  owned_by user none = throw (not_found_error job_not_found)
  owned_by user (some j) =
      if not (text_eq j.user_id user) then throw (not_found_error job_not_found) else pure j

  unfoldable pub get_owned_export_job : Text → Text → M e ExportJob
  unfolding owned_by find_job
  get_owned_export_job user id = do found ← query (λ d. find_job id d.jobs); owned_by user found

  -- What a resume does once nothing speaks against it.
  unfoldable pub resume_steps : ExportJob → M e ExportJob
  resume_steps job = do
    query (λ d. d.checkpoints)
    updated ← transact (update_job job.id to_resuming)
    enqueue_export_job job.id
    pure updated

  unfoldable pub resume_owned : ExportJob → M e ExportJob
  unfolding resume_steps
  resume_owned job =
      if status_eq job.status Errors.completed
      then throw (conflict_error nothing_to_resume)
      else if status_eq job.status Errors.cancelled
      then throw (conflict_error cancelled_for_good)
      else if not (includes resumable_for_user job.status)
      then throw (conflict_error (cannot_resume_while job.status))
      else resume_steps job

  unfoldable pub resume_export_job : Text → Text → M e ExportJob
  unfolding resume_owned get_owned_export_job
  resume_export_job user id = do job ← get_owned_export_job user id; resume_owned job

  unfoldable pub cancel_owned : ExportJob → M e ExportJob
  cancel_owned job =
      if status_eq job.status Errors.completed
      then throw (conflict_error cannot_cancel_completed)
      else if status_eq job.status Errors.cancelled
      then pure job
      else if not (includes cancellable job.status)
      then throw (conflict_error (cannot_cancel_while job.status))
      else transact (update_job job.id (to_cancel (status_eq job.status Errors.running)))

  unfoldable pub cancel_export_job : Text → Text → M e ExportJob
  unfolding cancel_owned get_owned_export_job
  cancel_export_job user id = do job ← get_owned_export_job user id; cancel_owned job

  signed : ExportJob → Text → Option ExportVerification → M e Download
  signed job key none = throw (forbidden_error not_verified)
  signed job key (some v) = if not v.result.passed then throw (forbidden_error not_verified) else do
    url ← lift (e.sign_url key (file_name job))
    pure (record {
      url = url;
      filename = file_name job;
      expires_in_seconds = e.signed_url_ttl;
      file_bytes = v.result.file_bytes;
      sha256 = v.result.sha256;
    })

  -- `!job.fileKey`: an empty key is none.
  with_key : ExportJob → Option Text → M e Download
  unfolding signed latest_verification
  with_key job none = throw (conflict_error no_file_key)
  with_key job (some []) = throw (conflict_error no_file_key)
  with_key job (some (c ∷ key)) = do
    latest ← query (λ d. latest_verification job.id d.verifications)
    signed job (c ∷ key) latest

  unfoldable pub download_owned : ExportJob → M e Download
  unfolding with_key
  download_owned job =
      if not (status_eq job.status Errors.completed)
      then throw (conflict_error (not_completed job.status))
      else with_key job job.file_key

  unfoldable pub get_export_download : Text → Text → M e Download
  unfolding download_owned get_owned_export_job
  get_export_download user id = do job ← get_owned_export_job user id; download_owned job
