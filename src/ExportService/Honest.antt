-- ===== src/ExportService/Honest.antt =====
-- The API and the sweeper complete no job, and change no job's own data
-- (server/src/services/export.service.ts, stalledJobs.service.ts).
use export_vault.Prelude.{ℕ, refl, Bool, true, false, not, Option, none, some, List, [], ◌∷◌}
use export_vault.Text.{Text}
use export_vault.Model.{ExportJob}
use export_vault.Model.Errors.{Message, conflict_error, validation_error}
use export_vault.Model.Errors
use export_vault.World.{Env, Db, World}
use export_vault.World.Safe.{
  Safe-read_clock, Safe, safe_rules, Safe-query, Safe-transact, Safe-pure, Safe-bind, Safe-throw,
  Safe-if,
}
use export_vault.Jobs.{includes, status_eq}
use export_vault.Jobs.Laws.{update_job_where-All}
use export_vault.Queue.Safe.{enqueue_export_job-Safe}
use export_vault.ExportService.{
  to_resuming, to_cancel, owned_by, get_owned_export_job, resume_owned, resume_export_job,
  cancel_owned, cancel_export_job, resumable_for_user, cancellable,
}
use export_vault.Runner.Honest.{RowOk, RowsOk, KeepsRow, KeepsRow-RowOk}
use export_vault.Runner.Verified.{update-Safe, record_export_failure-Safe}
use export_vault.Runner.Steps.{is_stale}
use export_vault.Sweeper.{stall_message, to_interrupted, sweep_each, sweep_stalled_exports}

module _ (e : Env) (C : Option Text → Type 0) (job : ExportJob)
    (rely : (n : ℕ) (d : Db) → RowsOk C job d → RowsOk C job (e.others n d)) where
  abbrev Inv : Db → Type 0
  Inv = RowsOk C job

  owned_by-Safe : (user : Text) (found : Option ExportJob) → Safe {e = e} Inv (owned_by user found)
  unfolding owned_by
  owned_by-Safe user none = search safe_rules
  owned_by-Safe user (some j) = search safe_rules

  get_owned_export_job-Safe : (user id : Text) → Safe {e = e} Inv (get_owned_export_job user id)
  unfolding get_owned_export_job
  get_owned_export_job-Safe user id =
      Safe-bind Inv _ _ (Safe-query Inv rely _) (λ found. owned_by-Safe user found)

  resumes : KeepsRow to_resuming
  resumes = record {
    id = λ now j. refl;
    rows = λ now j. refl;
    snapshot = λ now j. refl;
    file = λ now j. refl;
    status = λ now j c. cc;
  }

  cancels : (running : Bool) → KeepsRow (to_cancel running)
  cancels true = record {
    id = λ now j. refl;
    rows = λ now j. refl;
    snapshot = λ now j. refl;
    file = λ now j. refl;
    status = λ now j c. c;
  }
  cancels false = record {
    id = λ now j. refl;
    rows = λ now j. refl;
    snapshot = λ now j. refl;
    file = λ now j. refl;
    status = λ now j c. cc;
  }

  resume_owned-Safe : (j : ExportJob) → Safe {e = e} Inv (resume_owned j)
  unfolding resume_owned
  resume_owned-Safe j =
      Safe-if Inv (status_eq j.status Errors.completed) _ _
        (Safe-throw Inv (conflict_error Errors.nothing_to_resume))
        (Safe-if Inv (status_eq j.status Errors.cancelled) _ _
          (Safe-throw Inv (conflict_error Errors.cancelled_for_good))
          (Safe-if Inv (not (includes resumable_for_user j.status)) _ _
            (Safe-throw Inv (conflict_error (Errors.cannot_resume_while j.status)))
            (Safe-bind Inv _ _ (Safe-query Inv rely _) (λ _.
              Safe-bind Inv _ _ (update-Safe e C job rely j.id to_resuming resumes) (λ updated.
                Safe-bind Inv _ _ (enqueue_export_job-Safe Inv rely j.id)
                  (λ _. Safe-pure Inv updated))))))

  cancel_owned-Safe : (j : ExportJob) → Safe {e = e} Inv (cancel_owned j)
  unfolding cancel_owned
  cancel_owned-Safe j =
      Safe-if Inv (status_eq j.status Errors.completed) _ _
        (Safe-throw Inv (conflict_error Errors.cannot_cancel_completed))
        (Safe-if Inv (status_eq j.status Errors.cancelled) _ _ (Safe-pure Inv j) (
          Safe-if Inv (not (includes cancellable j.status)) _ _
            (Safe-throw Inv (conflict_error (Errors.cannot_cancel_while j.status)))
            (update-Safe e C job rely j.id (to_cancel (status_eq j.status Errors.running))
              (cancels (status_eq j.status Errors.running)))))

  interrupts : (reason : Message) → KeepsRow (to_interrupted reason)
  interrupts reason = record {
    id = λ now j. refl;
    rows = λ now j. refl;
    snapshot = λ now j. refl;
    file = λ now j. refl;
    status = λ now j c. cc;
  }

  sweep_each-Safe : (start : ℕ) (js : List ExportJob) → Safe {e = e} Inv (sweep_each start js)
  unfolding sweep_each
  sweep_each-Safe start [] = Safe-pure Inv tt
  sweep_each-Safe start (j ∷ js) =
      Safe-bind Inv _ _
        (Safe-transact Inv rely _ (λ d i.
          update_job_where-All (RowOk C job) j.id (λ now k. is_stale e.stall_timeout_ms start k)
            (to_interrupted (stall_message j)) d
            (λ now k same. KeepsRow-RowOk C job _ (interrupts (stall_message j)) now k) i))
        (λ updated. Safe-if Inv (not updated) _ _ (sweep_each-Safe start js) (
          Safe-bind Inv _ _ (record_export_failure-Safe e C job rely (some j.id) _ _)
            (λ _. sweep_each-Safe start js)))

  -- Whatever calls fail, for each predicate `C` of file keys that the other processes keep so: if a row
  -- of the job is COMPLETED only with a file key of which `C` holds, it is so behind a resume, a
  -- cancellation and a sweep. They thus complete no row that is not, and change neither the file key of
  -- a COMPLETED row nor the number of rows and the boundary of any row of the job.
  pub api_keeps_RowsOk :
      (user id : Text) (w : World e)
      → RowsOk C job w.db
      → RowsOk C job (resume_export_job user id w).1.db
        × RowsOk C job (cancel_export_job user id w).1.db
        × RowsOk C job (sweep_stalled_exports w).1.db
  unfolding resume_export_job cancel_export_job sweep_stalled_exports
  api_keeps_RowsOk user id w i =
      let resumed : Safe {e = e} Inv (resume_export_job user id) =
        Safe-bind Inv _ _ (get_owned_export_job-Safe user id) resume_owned-Safe in
      let cancelled : Safe {e = e} Inv (cancel_export_job user id) =
        Safe-bind Inv _ _ (get_owned_export_job-Safe user id) cancel_owned-Safe in
      let swept : Safe {e = e} Inv sweep_stalled_exports =
        Safe-bind Inv _ _ (Safe-read_clock Inv) (λ start.
          Safe-bind Inv _ _ (Safe-query Inv rely _) (λ stalled.
            Safe-bind Inv _ _ (sweep_each-Safe start stalled) (λ _. Safe-pure Inv _))) in
      ((resumed.at w i).0, (cancelled.at w i).0, (swept.at w i).0)
