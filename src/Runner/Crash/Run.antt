-- ===== src/Runner/Crash/Run.antt =====
-- The whole of a run in which anything may fail
-- (`runExportJob` of server/src/services/exportRunner.service.ts).
use export_vault.Prelude.{
  ℕ, ◌≤◌, ◌<◌, ◌≡◌, ◌∙◌, refl, sym, subst, Bool, true, false, not, Option, none, some, inl, List,
  [], ◌++◌, if◌then◌else◌, length, concat, append-nil, All, arith,
}
use export_vault.Model.{RawRecordRow, ExportJob}
use export_vault.Result.{Result}
use export_vault.World.{Env, Db, World, pure, transact, try_catch, Out, returned, thrown, died}
use export_vault.World.Laws.{IsStore}
use export_vault.World.Survives.{
  Survives, Leaves, Leaves-result, Survives-pure, Survives-throw, Survives-exit, Survives-if,
  Survives-bind, Survives-known, Survives-pre, Survives-worse, Survives-read_clock, Survives-query,
  Survives-transact, Survives-try_catch,
}
use export_vault.Jobs.{find_job, update_job_where, touched, status_eq}
use export_vault.Model.Errors
use export_vault.Jobs.Laws.{update_job_where_found}
use export_vault.Resume.{ResumeState}
use export_vault.Resume.Valid.{position_of}
use export_vault.Runner.{
  RunOutcome, skipped, on_error, run_claimed, after_loop, run_found, run_job, run_export_job,
  enough_rounds,
}
use export_vault.Runner.Loop.{LoopEnd, finished, cancelled_at, exhausted, out_of_fuel, batches}
use export_vault.Runner.Steps.{
  claimable, claim, claim_job, not_started, starts_at, found_job, agrees, resynced,
  reconcile_job_progress,
}
use export_vault.Runner.Durable.{Durable, IsOpen, HasTerms-refl, IsSnapshot, Frame, log_of}
use export_vault.Runner.Durable.Log.{begin_at-log_of}
use export_vault.Runner.Exact.Open.{KeepsTerms, HasTerms-update_where, arrive-IsOpen, update-IsOpen}
use export_vault.Runner.Exact.Claim.{updated-Durable}
use export_vault.Runner.Crash.{Kept, Saved}
use export_vault.Runner.Crash.Batch.{kept}
use export_vault.Runner.Crash.Rounds.{batches-Survives}
use export_vault.Runner.Crash.Steps.{give_up-Survives, on_error-Survives}
use export_vault.Runner.Crash.Finish.{load_state-Survives, finish_run-Survives}

module _ {e : Env} (store : IsStore e) (job : ExportJob) (rows : List RawRecordRow)
    (frame : (n : ℕ) (d : Db) → Frame job d (e.others n d)) (bs : List (List RawRecordRow))
    (rest : List RawRecordRow) (snapshot : IsSnapshot rows)
    (within : length (concat bs) ≤ job.requested_row_limit) (whole : concat bs ++ rest ≡ rows)
    (filled : All (λ b. 0 < length b) bs) where
  abbrev Safe : World e → Type 0
  Safe = Saved e job rows bs

  abbrev Opened : World e → Type 0
  Opened = IsOpen e job rows bs rest

  Opened-Safe : (w : World e) → Opened w → Safe w
  Opened-Safe w o = inl (kept store job rows frame bs bs [] rest (sym (append-nil bs)) within w o)

  -- An update of the job's row that keeps the flag, however it is written.
  module _ {A : Type 0} (op : Db → Result A × Db)
      (keeps : (w : World e) → Opened w → Opened (record w { db = (op w.db).1 })) where
    transact-Survives : Survives {e = e} Opened Safe (λ _ w. Opened w) (transact op)
    transact-Survives =
        Survives-transact Safe Opened (arrive-IsOpen job rows frame bs rest) Opened-Safe
          (λ _ w. Opened w) op (λ _ w o. Opened-Safe w o)
          (λ w o.
            Leaves-result Safe (λ _ v. Opened v) (op w.db).0 _ (Opened-Safe _ (keeps w o))
              (λ _ _. keeps w o))

  where_kept :
      (p : ℕ → ExportJob → Bool) (f : ℕ → ExportJob → ExportJob)
      → KeepsTerms f
      → (w : World e) → Opened w
      → Opened (record w { db = (update_job_where job.id p f w.db).1 })
  where_kept p f keeps w o =
      let (done, there, others) =
        update_job_where_found job.id p f w.db o.row o.found (keeps w.db.now o.row).same_id in
      record {
        durable = updated-Durable job rows bs rest w _ others o.durable;
        row = _;
        found = there;
        terms = HasTerms-update_where job o.row f w.db.now (p w.db.now o.row) keeps o.terms;
        wanted = flag (p w.db.now o.row) ∙ o.wanted;
      }
    where
      flag :
          (b : Bool)
          → (if b then touched w.db.now (f w.db.now o.row) else o.row).cancel_requested
            ≡ o.row.cancel_requested
      flag true = (keeps w.db.now o.row).same_flag
      flag false = refl

  claim_job-Survives : Survives {e = e} Opened Safe (λ _ w. Opened w) (claim_job job.id)
  unfolding claim_job
  claim_job-Survives =
      Survives-bind Safe Opened (λ _ w. Opened w) _ _ _
        (Survives-read_clock Safe Opened _ (λ w o. o))
        (λ start.
          Survives-bind Safe Opened (λ _ w. Opened w) _ _ _
            (transact-Survives _ (
              where_kept (λ now j. claimable e.stall_timeout_ms start j) claim
                (λ now j. ground arith)))
            (λ claimed.
              Survives-if Safe Opened (λ _ w. Opened w) (not claimed) _ _
                (λ _. Survives-pure Safe Opened _ _ (λ w o. o))
                (λ _.
                  Survives-bind Safe Opened (λ _ w. Opened w) _ _ _
                    (transact-Survives _ (where_kept not_started starts_at (λ now j. ground arith)))
                    (λ _. Survives-pure Safe Opened _ _ (λ w o. o)))))

  found_job-Survives :
      (f : Option ExportJob) → Survives {e = e} Opened Safe (λ _ w. Opened w) (found_job f)
  unfolding found_job
  found_job-Survives none = Survives-throw Safe Opened _ _ Opened-Safe
  found_job-Survives (some j) = Survives-pure Safe Opened _ j (λ w o. o)

  reconcile-Survives :
      (s : ResumeState)
      → Survives {e = e} Opened Safe (λ _ w. Opened w) (reconcile_job_progress job.id s)
  unfolding reconcile_job_progress
  reconcile-Survives s =
      Survives-bind Safe Opened (λ _ w. Opened w) _ _ _
        (Survives-query Safe Opened (arrive-IsOpen job rows frame bs rest) Opened-Safe
          (λ _ w. Opened w) _ (λ _ w o. Opened-Safe w o) (λ w o. o))
        (λ f.
          Survives-bind Safe Opened (λ _ w. Opened w) _ _ _ (found_job-Survives f)
            (λ k.
              Survives-if Safe Opened (λ _ w. Opened w) (agrees k s) _ _
                (λ _. Survives-pure Safe Opened _ _ (λ w o. o))
                (λ _.
                  Survives-bind Safe Opened (λ _ w. Opened w) _ _ _
                    (transact-Survives _ (λ w o.
                      update-IsOpen job rows frame bs rest (resynced s) w (λ now j. ground arith)
                        o))
                    (λ _. Survives-pure Safe Opened _ _ (λ w o. o)))))

  after_loop-Survives :
      (end : LoopEnd)
      → Survives {e = e} (Kept e job rows bs) Safe (λ _ w. Safe w) (after_loop job end)
  unfolding after_loop
  after_loop-Survives (finished n) = record {
    at = λ w k.
        (finish_run-Survives store job rows frame bs k.bs k.more k.rest k.grown k.within
            k.is_open.durable.whole snapshot n).at
          w k.is_open;
  }
  after_loop-Survives (cancelled_at n) = Survives-pure Safe (Kept e job rows bs) _ _ (λ w k. inl k)
  after_loop-Survives (exhausted n after) =
      Survives-pre Safe Safe _ _ (λ w k. inl k) (give_up-Survives job rows frame bs n _)
  after_loop-Survives out_of_fuel = Survives-exit Safe (Kept e job rows bs) _ (λ w k. inl k)

  run_claimed-Survives : Survives {e = e} Opened Safe (λ _ w. Safe w) (run_claimed job)
  unfolding run_claimed
  run_claimed-Survives =
      Survives-known Safe Opened (position_of (log_of job.id 1 bs)) Opened _ _ _
        (load_state-Survives store job rows frame bs bs [] rest (sym (append-nil bs)) within whole
          snapshot)
        (Survives-bind Safe Opened (λ _ w. Opened w) _ _ _ (reconcile-Survives _)
          (λ _.
            Survives-bind Safe Opened (λ _ w. Kept e job rows bs w) _ _ _
              (subst
                (λ p.
                  Survives {e = e} Opened Safe (λ _ w. Kept e job rows bs w)
                    (batches (enough_rounds job) job p))
                (sym (begin_at-log_of job.id bs filled))
                (Survives-worse (Kept e job rows bs) Safe Opened _ _
                  (batches-Survives store job rows frame bs snapshot (enough_rounds job) bs [] rest
                    (sym (append-nil bs)) within)
                  (λ w k. inl k)))
              after_loop-Survives))

  module _ (wanted : job.cancel_requested ≡ false) where
    run_found-Survives : Survives {e = e} Opened Safe (λ _ w. Safe w) (run_found job)
    unfolding run_found
    run_found-Survives =
        Survives-if Safe Opened (λ _ w. Safe w) (status_eq job.status Errors.completed) _ _
          (λ _. Survives-pure Safe Opened _ _ Opened-Safe)
          (λ _.
            Survives-if Safe Opened (λ _ w. Safe w) (status_eq job.status Errors.cancelled) _ _
              (λ _. Survives-pure Safe Opened _ _ Opened-Safe)
              (λ _.
                Survives-if Safe Opened (λ _ w. Safe w) job.cancel_requested _ _
                  (λ cancelled. absurd (cc))
                  (λ _. Survives-bind Safe Opened (λ _ w. Opened w) _ _ _ claim_job-Survives run)))
      where
        run :
            (claimed : Bool)
            → Survives {e = e} Opened Safe
                (λ _ w. Safe w)
                (if not claimed
                  then pure (skipped (Errors.owned_by_live_worker job.id job.status))
                  else try_catch (run_claimed job) (on_error job))
        run claimed =
            Survives-if Safe Opened (λ _ w. Safe w) (not claimed) _ _
              (λ _. Survives-pure Safe Opened _ _ Opened-Safe)
              (λ _.
                Survives-try_catch Safe Opened Safe (λ _ w. Safe w) _ _ run_claimed-Survives
                  (λ w s. s) (on_error-Survives job rows frame bs))

    -- The job's row is as it was read.
    abbrev Ready : World e → Type 0
    Ready w = (find_job job.id w.db.jobs ≡ some job) × Opened w

    run_export_job-Survives : Survives {e = e} Ready Safe (λ _ w. Safe w) (run_export_job job.id)
    unfolding run_export_job run_job
    run_export_job-Survives =
        Survives-known Safe Ready (some job) Opened _ _ _
          (Survives-query Safe Ready
            (λ w h.
              ((frame w.calls w.db).same_job ∙ h.0, arrive-IsOpen job rows frame bs rest w h.1))
            (λ w h. Opened-Safe w h.1) _ _ (λ f w h. Opened-Safe w h.1) (λ w h. h))
          run_found-Survives

    Saved-of_Leaves : (o : Out RunOutcome) (w : World e) → Leaves Safe (λ _ v. Safe v) o w → Safe w
    Saved-of_Leaves (returned a) w h = h
    Saved-of_Leaves (thrown x) w h = h
    Saved-of_Leaves died w h = h

-- Let the batches `bs`, the first rows of the job's snapshot, be durable, and let nobody have asked
-- to cancel the job. Whatever calls of a run then fail, lose their reply or find the process dead,
-- and wherever the process is told to crash, the run leaves the job either with the batches `bs`
-- and perhaps more durable, their checkpoints and chunks in step, so that the next run goes on
-- behind them, or with the whole file in the object store. The other processes are taken to leave
-- the job's row, log and snapshot alone, and the store to keep what it has accepted.
pub run_export_job-Saved :
    {e : Env} (job : ExportJob) (rows : List RawRecordRow) (bs : List (List RawRecordRow))
    (rest : List RawRecordRow) (w : World e)
    → IsStore e
    → ((n : ℕ) (d : Db) → Frame job d (e.others n d))
    → IsSnapshot rows
    → job.cancel_requested ≡ false
    → length (concat bs) ≤ job.requested_row_limit
    → Durable e job rows bs rest w
    → find_job job.id w.db.jobs ≡ some job
    → Saved e job rows bs (run_export_job job.id w).1
run_export_job-Saved job rows bs rest w store frame snapshot wanted within h found =
    Saved-of_Leaves store job rows frame bs rest snapshot within h.whole h.filled wanted _ _ (
      (run_export_job-Survives store job rows frame bs rest snapshot within h.whole h.filled
          wanted).at
        w
        (
          found,
          record {
            durable = h;
            row = job;
            found = found;
            terms = HasTerms-refl job;
            wanted = wanted;
          },
        ))
