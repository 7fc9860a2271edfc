-- ===== src/Runner/Steps.antt =====
-- The steps of a run (server/src/services/exportRunner.service.ts,
-- exportFailure.service.ts, and the calls of exportResume.service.ts and
-- exportVerification.service.ts that act on the tables).
use export_vault.Prelude.{
  ℕ, zero, suc, ◌+◌, Bool, true, false, not, ◌&&◌, ◌||◌, Option, none, some, List, [], ◌∷◌, ◌++◌,
  ◌==◌, ltb, if◌then◌else◌,
}
use export_vault.Text.{Text, codes}
use export_vault.Text.Utf8.{utf8}
use export_vault.Csv.{csv_header}
use export_vault.Model.{ExportJob}
use export_vault.Model.Errors.{
  ExportStatus, Message, FailureType, AppError, export_integrity_error, message, assembled_empty,
  export_run_failed,
}
use export_vault.Model.Errors
use export_vault.Result.{ok}
use export_vault.World.{
  read_clock, Env, M, ◌>>=◌, ◌>>◌, pure, throw, lift, try_catch, transact, query,
}
use export_vault.Jobs.{find_job, update_job, update_job_where, includes, status_eq, p2025}
use export_vault.Resume.{ResumeState, load_resume_state}
use export_vault.Storage.{chunk_key, final_key, get_object_stream, head_object, upload_stream}
use export_vault.Verification.{VerificationResult, verdict}

abbrev pub resumable_statuses : List ExportStatus
resumable_statuses =
    Errors.pending ∷ Errors.queued ∷ Errors.interrupted ∷ Errors.resuming ∷ Errors.failed ∷ []

-- { status: RUNNING, updatedAt: { lt: now - timeout } }; with `now` below the timeout no row is older
abbrev pub is_stale : ℕ → ℕ → ExportJob → Bool
is_stale timeout now j = status_eq j.status Errors.running && ltb (j.updated_at + timeout) now

abbrev pub claimable : ℕ → ℕ → ExportJob → Bool
claimable timeout now j = includes resumable_statuses j.status || is_stale timeout now j

abbrev pub claim : ℕ → ExportJob → ExportJob
claim now j = record j { status = Errors.running; error_message = none; failed_at = none }

abbrev pub starts_at : ℕ → ExportJob → ExportJob
starts_at now j = record j { started_at = some now }

abbrev pub not_started : ℕ → ExportJob → Bool
not_started now j = elim j.started_at [ none ↦ true | some t ↦ false ]

abbrev pub or_zero : Option ℕ → ℕ
or_zero none = 0
or_zero (some n) = n

-- job?.cancelRequested === true
unfoldable pub wants_cancel : Option ExportJob → Bool
wants_cancel none = false
wants_cancel (some j) = j.cancel_requested

-- The source cuts the message off behind 4000 characters.
abbrev pub to_failed : Message → ℕ → ExportJob → ExportJob
to_failed reason now j = record j {
  status = Errors.failed;
  failed_at = some now;
  error_message = some reason;
}

abbrev pub agrees : ExportJob → ResumeState → Bool
agrees j s =
    or_zero j.last_exported_id == s.last_exported_id && j.exported_row_count == s.rows_written

abbrev pub to_completed : Text → Text → ℕ → ExportJob → ExportJob
to_completed id key now j = record j {
  status = Errors.completed;
  file_key = some key;
  file_url = some (codes "/api/exports/" ++ (id ++ codes "/download"));
  completed_at = some now;
  error_message = none;
  failed_at = none;
}

abbrev pub resynced : ResumeState → ℕ → ExportJob → ExportJob
resynced s now j = record j {
  last_exported_id = if s.last_exported_id == 0 then none else some s.last_exported_id;
  exported_row_count = s.rows_written;
}

abbrev pub to_cancelled : ℕ → ExportJob → ExportJob
to_cancelled now j = record j { status = Errors.cancelled; completed_at = some now }

module _ {e : Env} where
  unfoldable pub claim_job : Text → M e Bool
  claim_job id = do
    start ← read_clock
    claimed ← transact (update_job_where id (λ now j. claimable e.stall_timeout_ms start j) claim)
    if not claimed
        then pure false
        else do transact (update_job_where id not_started starts_at); pure true

  unfoldable pub is_cancel_requested : Text → M e Bool
  unfolding find_job wants_cancel
  is_cancel_requested id = query (λ d. wants_cancel (find_job id d.jobs))

  -- exportFailure.service.ts; what `create` throws is only logged
  unfoldable pub record_export_failure : Option Text → FailureType → AppError → M e (Unit {0})
  record_export_failure id kind error =
      try_catch
        (transact (λ d. (
          ok tt,
          record d {
            failures = record { export_job_id = id; error_type = kind; error = error } ∷ d.failures;
          },
        )))
        (λ persist_error. pure tt)

  unfoldable pub fail_job : Text → Message → AppError → M e (Unit {0})
  unfolding update_job record_export_failure
  fail_job id reason error = do
    transact (update_job id (to_failed reason))
    record_export_failure (some id) export_run_failed error

  unfoldable pub load_state : Text → M e ResumeState
  unfolding load_resume_state
  load_state id = do loaded ← query (λ d. load_resume_state id d.checkpoints); lift loaded

  unfoldable pub found_job : Option ExportJob → M e ExportJob
  found_job none = throw (Errors.plain (Errors.foreign p2025))
  found_job (some j) = pure j

  unfoldable pub reconcile_job_progress : Text → ResumeState → M e (Unit {0})
  unfolding found_job find_job update_job
  reconcile_job_progress id s = do
    found ← query (λ d. find_job id d.jobs)
    job ← found_job found
    if agrees job s then pure tt else do transact (update_job id (resynced s)); pure tt

  unfoldable pub set_status : Text → ExportStatus → M e (Unit {0})
  unfolding update_job
  set_status id status = do
    transact (update_job id (λ now j. record j { status = status }))
    pure tt

  unfoldable pub set_cancelled : Text → M e (Unit {0})
  unfolding update_job
  set_cancelled id = do transact (update_job id to_cancelled); pure tt

  unfoldable pub set_file_key : Text → Text → M e (Unit {0})
  unfolding update_job
  set_file_key id key = do
    transact (update_job id (λ now j. record j { file_key = some key }))
    pure tt

  unfoldable pub set_completed : Text → Text → M e (Unit {0})
  unfolding update_job
  set_completed id key = do transact (update_job id (to_completed id key)); pure tt

  -- The chunks `n`, `n + 1`, …, as many as `left`, behind `body`.
  unfoldable pub append_chunks : ℕ → ℕ → Text → List ℕ → M e (List ℕ)
  append_chunks zero n id body = pure body
  append_chunks (suc left) n id body = do
    chunk ← get_object_stream (chunk_key id n)
    append_chunks left (n + 1) id (body ++ chunk)

  -- The upload reads the stream while the chunks are fetched; the object is there when it is done.
  unfoldable pub assemble_final_csv : Text → ℕ → M e Text
  unfolding append_chunks
  assemble_final_csv id batch_count = do
    body ← append_chunks batch_count 1 id (utf8 csv_header)
    upload_stream (final_key id) body
    size ← head_object (final_key id)
    if size == 0 then throw (export_integrity_error (assembled_empty id)) else pure (final_key id)

  -- exportVerification.service.ts
  unfoldable pub verify_export_file : Text → Text → ℕ → ℕ → M e VerificationResult
  verify_export_file id key expected snapshot = do
    bytes ← head_object key
    body ← get_object_stream key
    rows ← lift (e.parse body)
    let result = verdict expected snapshot bytes (e.sha256 body) rows
    transact (λ d. (
      ok tt,
      record d {
        verifications =
            record { export_job_id = id; result = result; created_at = d.now } ∷ d.verifications;
      },
    ))
    pure result
