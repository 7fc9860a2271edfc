-- ===== src/Runner/Verified.antt =====
-- COMPLETED only on the far side of a passing verification: every step of a run
-- (server/src/services/exportRunner.service.ts), whatever fails and whatever others do.
use export_vault.Prelude.{
  ◌≡◌, ◌==◌, ℕ, zero, suc, ◌+◌, refl, Bool, true, false, not, Option, none, some, List, ◌++◌,
}
use export_vault.Text.{Text}
use export_vault.Model.{ExportJob}
use export_vault.Model.Errors.{ExportStatus, Message, AppError, FailureType}
use export_vault.Model.Errors
use export_vault.World.{Env, Db, transact}
use export_vault.World.Safe.{
  Safe, Safe-read_clock, safe_rules, Safe-query, Safe-transact, Safe-pure, Safe-bind,
  Safe-try_catch, Safe-if,
}
use export_vault.Jobs.{update_job, update_job_where}
use export_vault.Jobs.Laws.{update_job-All, update_job_where-All}
use export_vault.Resume.{ResumeState}
use export_vault.Text.Utf8.{utf8}
use export_vault.Csv.{csv_header}
use export_vault.Storage.{final_key}
use export_vault.World.Keeps.{Keeps, Keeps-bind, Keeps-if, Keeps-throw, Keeps-pure}
use export_vault.Storage.Safe.{get_object_stream-Safe, head_object-Safe, upload_stream-Safe}
use export_vault.Runner.Honest.{RowOk, RowsOk, NotCompleted, KeepsRow, KeepsRow-RowOk}
use export_vault.Runner.Steps.{
  claim_job, claimable, claim, not_started, starts_at, is_cancel_requested, record_export_failure,
  to_failed, fail_job, load_state, found_job, agrees, resynced, to_cancelled,
  reconcile_job_progress, set_status, set_cancelled, set_file_key, append_chunks,
  assemble_final_csv,
}

module _ (e : Env) (C : Option Text → Type 0) (job : ExportJob)
    (rely : (n : ℕ) (d : Db) → RowsOk C job d → RowsOk C job (e.others n d)) where
  abbrev Inv : Db → Type 0
  Inv = RowsOk C job

  pub update-Safe :
      (id : Text) (f : ℕ → ExportJob → ExportJob)
      → KeepsRow f
      → Safe {e = e} Inv (transact (update_job id f))
  update-Safe id f k =
      Safe-transact Inv rely (update_job id f) (λ d i.
        update_job-All (RowOk C job) id f d (λ now j same. KeepsRow-RowOk C job f k now j) i)

  update_where-Safe :
      (id : Text) (p : ℕ → ExportJob → Bool) (f : ℕ → ExportJob → ExportJob)
      → KeepsRow f
      → Safe {e = e} Inv (transact (update_job_where id p f))
  update_where-Safe id p f k = Safe-transact Inv rely (update_job_where id p f) (λ d i.
      update_job_where-All (RowOk C job) id p f d (λ now j same. KeepsRow-RowOk C job f k now j) i)

  pub claim_job-Safe : (id : Text) → Safe {e = e} Inv (claim_job id)
  unfolding claim_job
  claim_job-Safe id = Safe-bind Inv _ _ (Safe-read_clock Inv) (λ start.
      Safe-bind Inv _ _
        (update_where-Safe id (λ now j. claimable e.stall_timeout_ms start j) claim claims)
        (λ claimed. Safe-if Inv (not claimed) _ _ (Safe-pure Inv false) (
          Safe-bind Inv _ _ (update_where-Safe id not_started starts_at starts)
            (λ _. Safe-pure Inv true))))
    where
      claims : KeepsRow claim
      claims = record {
        id = λ now j. refl;
        rows = λ now j. refl;
        snapshot = λ now j. refl;
        file = λ now j. refl;
        status = λ now j c. cc;
      }

      starts : KeepsRow starts_at
      starts = record {
        id = λ now j. refl;
        rows = λ now j. refl;
        snapshot = λ now j. refl;
        file = λ now j. refl;
        status = λ now j c. c;
      }

  pub is_cancel_requested-Safe : (id : Text) → Safe {e = e} Inv (is_cancel_requested id)
  unfolding is_cancel_requested
  is_cancel_requested-Safe id = search (Safe-query {e = e} Inv rely)

  pub record_export_failure-Safe :
      (id : Option Text) (kind : FailureType) (error : AppError)
      → Safe {e = e} Inv (record_export_failure id kind error)
  unfolding record_export_failure
  record_export_failure-Safe id kind error =
      Safe-try_catch Inv _ _ (Safe-transact Inv rely _ (λ d i. i)) (λ x. Safe-pure Inv tt)

  pub fails : (reason : Message) → KeepsRow (to_failed reason)
  fails reason = record {
    id = λ now j. refl;
    rows = λ now j. refl;
    snapshot = λ now j. refl;
    file = λ now j. refl;
    status = λ now j c. cc;
  }

  pub fail_job-Safe :
      (id : Text) (reason : Message) (error : AppError)
      → Safe {e = e} Inv (fail_job id reason error)
  unfolding fail_job
  fail_job-Safe id reason error =
      search
        (safe_rules, update-Safe id (to_failed reason) (fails reason), record_export_failure-Safe)

  pub load_state-Safe : (id : Text) → Safe {e = e} Inv (load_state id)
  unfolding load_state
  load_state-Safe id = search (safe_rules, Safe-query {e = e} Inv rely)

  found_job-Safe : (found : Option ExportJob) → Safe {e = e} Inv (found_job found)
  unfolding found_job
  found_job-Safe none = search safe_rules
  found_job-Safe (some j) = search safe_rules

  pub reconcile_job_progress-Safe :
      (id : Text) (s : ResumeState) → Safe {e = e} Inv (reconcile_job_progress id s)
  unfolding reconcile_job_progress
  reconcile_job_progress-Safe id s = Safe-bind Inv _ _ (Safe-query Inv rely _) (λ found.
      Safe-bind Inv _ _ (found_job-Safe found) (λ j.
        Safe-if Inv (agrees j s) _ _ (Safe-pure Inv tt)
          (Safe-bind Inv _ _ (update-Safe id (resynced s) resyncs) (λ _. Safe-pure Inv tt))))
    where
      resyncs : KeepsRow (resynced s)
      resyncs = record {
        id = λ now j. refl;
        rows = λ now j. refl;
        snapshot = λ now j. refl;
        file = λ now j. refl;
        status = λ now j c. c;
      }

  verifies : KeepsRow (λ now j. record j { status = Errors.verifying })
  verifies = record {
    id = λ now j. refl;
    rows = λ now j. refl;
    snapshot = λ now j. refl;
    file = λ now j. refl;
    status = λ now j c. cc;
  }

  pub set_verifying-Safe : (id : Text) → Safe {e = e} Inv (set_status id Errors.verifying)
  unfolding set_status
  set_verifying-Safe id = search (safe_rules, update-Safe id _ verifies)

  cancels : KeepsRow to_cancelled
  cancels = record {
    id = λ now j. refl;
    rows = λ now j. refl;
    snapshot = λ now j. refl;
    file = λ now j. refl;
    status = λ now j c. cc;
  }

  pub set_cancelled-Safe : (id : Text) → Safe {e = e} Inv (set_cancelled id)
  unfolding set_cancelled
  set_cancelled-Safe id = search (safe_rules, update-Safe id to_cancelled cancels)

  append_chunks-Safe :
      (left n : ℕ) (id : Text) (body : List ℕ) → Safe {e = e} Inv (append_chunks left n id body)
  unfolding append_chunks
  append_chunks-Safe zero n id body = Safe-pure Inv body
  append_chunks-Safe (suc left) n id body =
      Safe-bind Inv _ _ (get_object_stream-Safe Inv rely _)
        (λ chunk. append_chunks-Safe left (n + 1) id (body ++ chunk))

  -- What the assembly returns is the final key.
  pub assemble_final_csv-Keeps :
      (id : Text) (count : ℕ)
      → Keeps {e = e} Inv (λ key. key ≡ final_key id) (assemble_final_csv id count)
  unfolding assemble_final_csv
  assemble_final_csv-Keeps id count =
      Keeps-bind Inv (λ _. Unit) _ _ _ (append_chunks-Safe count 1 id (utf8 csv_header))
        (λ body _.
          Keeps-bind Inv (λ _. Unit) _ _ _ (upload_stream-Safe Inv rely (final_key id) body)
            (λ _ _.
              Keeps-bind Inv (λ _. Unit) _ _ _ (head_object-Safe Inv rely (final_key id))
                (λ size _.
                  Keeps-if Inv _ (size == 0) _ _ (λ _. Keeps-throw Inv _ _)
                    (λ _. Keeps-pure Inv _ _ refl))))

-- A file key may change while no row of the job is COMPLETED.
pub set_file_key-Safe :
    {e : Env} (job : ExportJob)
    → ((n : ℕ) (d : Db) → NotCompleted job d → NotCompleted job (e.others n d))
    → (id key : Text) → Safe {e = e} (NotCompleted job) (set_file_key id key)
unfolding set_file_key
set_file_key-Safe job rely id key =
    Safe-bind (NotCompleted job) _ _
      (Safe-transact (NotCompleted job) rely _ (λ d i.
        update_job-All (RowOk (λ k. ⊥) job) id (λ now j. record j { file_key = some key }) d
          (λ now j same h. record {
            honest = h.honest;
            same_rows = h.same_rows;
            same_snapshot = h.same_snapshot;
          })
          i))
      (λ _. Safe-pure (NotCompleted job) tt)
