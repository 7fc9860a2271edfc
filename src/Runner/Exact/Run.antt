-- ===== src/Runner/Exact/Run.antt =====
-- The whole of a run that nothing disturbs, from wherever an earlier run stopped
-- (`runExportJob` of server/src/services/exportRunner.service.ts).
use export_vault.Prelude.{
  ℕ, ◌<◌, ◌≤◌, ◌≡◌, ◌∙◌, sym, ap, true, false, none, some, List, ◌++◌, arith, length, concat, subst,
  All,
}
use export_vault.Model.{RawRecordRow, ExportJob}
use export_vault.Model.Errors.{ExportStatus}
use export_vault.Model.Errors
use export_vault.World.{Env, Db, World, returned}
use export_vault.World.Laws.{IsStore, IsWilling, IsParser}
use export_vault.World.Runs.{Runs, Runs-bind, Runs-known, Runs-else, Runs-query, Runs-try_catch}
use export_vault.Jobs.{find_job, includes, status_eq}
use export_vault.Resume.Valid.{position_of}
use export_vault.Runner.{
  RunOutcome, completed, run_claimed, run_found, run_job, run_export_job, enough_rounds,
}
use export_vault.Runner.Steps.{resumable_statuses}
use export_vault.Runner.Durable.{Durable, IsOpen, IsSnapshot, Frame, log_of}
use export_vault.Runner.Durable.Log.{begin_at-log_of}
use export_vault.Runner.Exact.Claim.{Ready, arrive-Ready, claim_job-Runs, reconcile-Runs}
use export_vault.Runner.Exact.Open.{load_state-Runs}
use export_vault.Runner.Loop.{batches}
use export_vault.Runner.Exact.Rounds.{IsDone, batches-Runs}
use export_vault.Runner.Exact.Finish.{IsExported, after_loop-Runs}

-- No call of the process fails, the process is not told to crash, and the others leave the job alone.
pub record IsUndisturbed (e : Env) (job : ExportJob) : Type 0 where
  pub quiet : (n : ℕ) → e.fault n ≡ none
  pub no_crash : e.crash_after_rows ≡ none
  pub pages : 0 < e.max_pages
  pub frame : (n : ℕ) (d : Db) → Frame job d (e.others n d)

-- A job that a run may claim, that nobody wants cancelled, and that asks for no more rows than its
-- snapshot has.
pub record IsRunnable (job : ExportJob) (rows : List RawRecordRow) : Type 0 where
  pub size : 0 < job.batch_size
  pub enough : job.requested_row_limit ≤ length rows
  pub wanted : job.cancel_requested ≡ false
  pub resumable : includes resumable_statuses job.status ≡ true

resumable_is_open :
    (s : ExportStatus)
    → includes resumable_statuses s ≡ true
    → (status_eq s Errors.completed ≡ false) × (status_eq s Errors.cancelled ≡ false)
resumable_is_open s h = ground arith

module _ {e : Env} (job : ExportJob) (rows : List RawRecordRow) (bs : List (List RawRecordRow))
    (rest : List RawRecordRow) (quiet : (n : ℕ) → e.fault n ≡ none)
    (frame : (n : ℕ) (d : Db) → Frame job d (e.others n d)) (wanted : job.cancel_requested ≡ false)
    (resumable : includes resumable_statuses job.status ≡ true) where
  abbrev Opened : World e → Type 0
  Opened = IsOpen e job rows bs rest

  abbrev Start : World e → Type 0
  Start = Ready job rows bs rest

  module _ (store : IsStore e) (willing : IsWilling e) (parser : IsParser e)
      (no_crash : e.crash_after_rows ≡ none) (pages : 0 < e.max_pages) (size : 0 < job.batch_size)
      (snapshot : IsSnapshot rows) (enough : job.requested_row_limit ≤ length rows)
      (within : length (concat bs) ≤ job.requested_row_limit) (whole : concat bs ++ rest ≡ rows)
      (filled : All (λ b. 0 < length b) bs) where
    abbrev Ended : RunOutcome → World e → Type 0
    Ended o w = (o ≡ completed job.requested_row_limit) × IsExported e job rows w

    run_claimed-Runs : Runs {e = e} Opened Ended (run_claimed job)
    unfolding run_claimed
    run_claimed-Runs =
        Runs-known Opened (position_of (log_of job.id 1 bs)) Opened _ _ _
          (load_state-Runs job rows frame bs rest quiet whole snapshot)
          (Runs-bind Opened (λ _ w. Opened w) _ _ _
            (reconcile-Runs job rows bs rest quiet frame wanted resumable _)
            (λ _.
              Runs-bind Opened (IsDone quiet store willing no_crash job rows frame) _ _ _
                (subst
                  (λ p.
                    Runs {e = e} Opened (IsDone quiet store willing no_crash job rows frame)
                      (batches (enough_rounds job) job p))
                  (sym (begin_at-log_of job.id bs filled))
                  (batches-Runs quiet store willing no_crash job rows frame snapshot size enough
                    (enough_rounds job) bs rest whole within (omega arith)))
                (after_loop-Runs quiet store willing no_crash job rows frame parser pages
                  snapshot)))

    run_found-Runs : Runs {e = e} Start Ended (run_found job)
    unfolding run_found
    run_found-Runs =
        let (not_completed, not_cancelled) = resumable_is_open job.status resumable in
        Runs-else Start Ended _ _ _ not_completed (
          Runs-else Start Ended _ _ _ not_cancelled (
            Runs-else Start Ended _ _ _ wanted (
              Runs-known Start true Opened _ _ _
                (claim_job-Runs job rows bs rest quiet frame wanted resumable)
                (Runs-try_catch Opened Ended _ _ run_claimed-Runs))))

    run_export_job-Runs : Runs {e = e} Start Ended (run_export_job job.id)
    unfolding run_export_job run_job
    run_export_job-Runs =
        Runs-known Start (some job) Start _ _ _
          (Runs-query quiet Start (arrive-Ready job rows bs rest quiet frame wanted resumable) _ _
            (λ w h. (h.1, h)))
          run_found-Runs

-- Let the batches `bs`, the first rows of the job's snapshot, be durable: recorded in the checkpoint
-- log, and their chunks in the object store; none of them on a fresh start, some after a crash, and
-- no more rows in them than the job asks for. Let the job be in a status that a run resumes, not
-- cancelled, with a positive batch size, and with no more rows asked for than the snapshot has. If no
-- call fails, the other processes leave the job's row, log and snapshot alone, the store accepts and
-- keeps what it is sent and lists the chunks on one page, and csv-parse reads what RFC 4180
-- describes, then a run of the job returns COMPLETED with the number of rows asked for, the job's row
-- says COMPLETED and names the final key, and the object with that key is, byte for byte, the header
-- and the first rows of the snapshot, as many as were asked for, whatever `bs` was.
pub run_export_job-exact :
    {e : Env} (job : ExportJob) (rows : List RawRecordRow) (bs : List (List RawRecordRow))
    (rest : List RawRecordRow) (w : World e)
    → IsStore e
    → IsWilling e
    → IsParser e
    → IsUndisturbed e job
    → IsSnapshot rows
    → IsRunnable job rows
    → length (concat bs) ≤ job.requested_row_limit
    → Durable e job rows bs rest w
    → find_job job.id w.db.jobs ≡ some job
    → ((run_export_job job.id w).0 ≡ returned (completed job.requested_row_limit))
      × IsExported e job rows (run_export_job job.id w).1
run_export_job-exact job rows bs rest w store willing parser u snapshot r within h found =
    let (outcome, back, (which, exported)) =
      (run_export_job-Runs job rows bs rest u.quiet u.frame r.wanted r.resumable store willing
          parser u.no_crash u.pages r.size snapshot r.enough within h.whole h.filled).at
        w (h, found) in
    (back ∙ ap returned which, exported)
