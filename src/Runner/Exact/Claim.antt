-- ===== src/Runner/Exact/Claim.antt =====
-- The first steps of a run: the claim of the job's row, and its reconciliation with the log
-- (server/src/services/exportRunner.service.ts, exportResume.service.ts).
use export_vault.Prelude.{
  ℕ, ◌≡◌, ◌∙◌, refl, ap, true, false, Bool, Bool-cases, inl, inr, none, some, List, if◌then◌else◌,
  arith,
}
use export_vault.Model.{RawRecordRow, ExportJob}
use export_vault.Result.{ok}
use export_vault.World.{Env, Db, World, arrive, pure, transact, ◌>>◌}
use export_vault.World.Runs.{
  Runs, Runs-pure, Runs-bind, Runs-known, Runs-given, Runs-read_clock, Runs-query, Runs-transact,
}
use export_vault.Jobs.{find_job, update_job, update_job_where, includes, touched}
use export_vault.Jobs.Laws.{update_job_where_found}
use export_vault.Records.Eligible.{eligible}
use export_vault.Resume.{ResumeState, checkpoints_of}
use export_vault.Runner.Steps.{
  resumable_statuses, claimable, claim, claim_job, not_started, starts_at, found_job, agrees,
  resynced, reconcile_job_progress,
}
use export_vault.Runner.Durable.{Durable, IsOpen, Frame}
use export_vault.Runner.Exact.Open.{arrive-IsOpen, HasTerms-update_where, update-Runs}

kept_flag :
    (b : Bool) (now : ℕ) (j : ExportJob)
    → (if b then touched now (starts_at now j) else j).cancel_requested ≡ j.cancel_requested
kept_flag true now j = refl
kept_flag false now j = refl

module _ {e : Env} (job : ExportJob) (rows : List RawRecordRow) (bs : List (List RawRecordRow))
    (rest : List RawRecordRow) where
  -- An update of the job's row alone leaves what is durable.
  pub updated-Durable :
      (w : World e) (d : Db)
      → d ≡ record w.db { jobs = d.jobs }
      → Durable e job rows bs rest w
      → Durable e job rows bs rest (record w { db = d })
  updated-Durable w d others h = record {
    logged = ap (λ (t : Db). checkpoints_of job.id t.checkpoints) others ∙ h.logged;
    snapshot = ap (λ (t : Db). eligible job.snapshot_max_id t.records) others ∙ h.snapshot;
    whole = h.whole;
    filled = h.filled;
    stored = h.stored;
  }

  -- The job's row is as it was read, and nobody has claimed it.
  abbrev pub Ready : World e → Type 0
  Ready w = Durable e job rows bs rest w × (find_job job.id w.db.jobs ≡ some job)

  abbrev Opened : World e → Type 0
  Opened = IsOpen e job rows bs rest

  module _ (quiet : (n : ℕ) → e.fault n ≡ none)
      (frame : (n : ℕ) (d : Db) → Frame job d (e.others n d))
      (wanted : job.cancel_requested ≡ false)
      (resumable : includes resumable_statuses job.status ≡ true) where
    pub arrive-Ready : (w : World e) → Ready w → Ready (arrive w)
    arrive-Ready w (h, found) =
        let same = frame w.calls w.db in
        (
          record {
            logged = same.same_log ∙ h.logged;
            snapshot = same.same_snapshot ∙ h.snapshot;
            whole = h.whole;
            filled = h.filled;
            stored = h.stored;
          },
          same.same_job ∙ found,
        )

    claim-Runs :
        (start : ℕ)
        → Runs {e = e} Ready
            (λ c w. (c ≡ true) × Opened w)
            (transact
              (update_job_where job.id (λ now j. claimable e.stall_timeout_ms start j) claim))
    claim-Runs start = Runs-transact quiet Ready arrive-Ready _ _ (λ w h.
        let p : ℕ → ExportJob → Bool = λ now j. claimable e.stall_timeout_ms start j in
        let met : claimable e.stall_timeout_ms start job ≡ true = rw resumable refl in
        let (done, there, others) = update_job_where_found job.id p claim w.db job h.1 refl in
        (
          true,
          done ∙ ap ok met,
          (
            refl,
            record {
              durable = updated-Durable w _ others h.0;
              row = touched w.db.now (claim w.db.now job);
              found =
                  there
                  ∙ ap (λ b. some (if b then touched w.db.now (claim w.db.now job) else job)) met;
              terms = record {
                same_id = refl;
                same_boundary = refl;
                same_limit = refl;
                same_size = refl;
                same_flag = refl;
              };
              wanted = wanted;
            },
          ),
        ))

    start-Runs :
        Runs {e = e} Opened
          (λ _ w. Opened w)
          (transact (update_job_where job.id not_started starts_at))
    start-Runs = Runs-transact quiet Opened (arrive-IsOpen job rows frame bs rest) _ _ (λ w o.
        let (done, there, others) =
          update_job_where_found job.id not_started starts_at w.db o.row o.found refl in
        (
          not_started w.db.now o.row,
          done,
          record {
            durable = updated-Durable w _ others o.durable;
            row = _;
            found = there;
            terms =
                HasTerms-update_where job o.row starts_at w.db.now (not_started w.db.now o.row)
                  (λ now j. ground arith) o.terms;
            wanted = kept_flag (not_started w.db.now o.row) w.db.now o.row ∙ o.wanted;
          },
        ))

    pub claim_job-Runs : Runs {e = e} Ready (λ c w. (c ≡ true) × Opened w) (claim_job job.id)
    unfolding claim_job
    claim_job-Runs =
        Runs-bind Ready (λ _ w. Ready w) _ _ _ (Runs-read_clock Ready _ (λ w h. h))
          (λ start. Runs-known Ready true Opened _ _ _ (claim-Runs start) (
            Runs-bind Opened (λ _ w. Opened w) _ _ _ start-Runs
              (λ _. Runs-pure _ _ true (λ w o. (refl, o)))))

    pub reconcile-Runs :
        (s : ResumeState) → Runs {e = e} Opened (λ _ w. Opened w) (reconcile_job_progress job.id s)
    unfolding reconcile_job_progress found_job
    reconcile-Runs s =
        Runs-bind Opened (λ f w. ((j : ExportJob) × (f ≡ some j)) × Opened w) _ _ _
          (Runs-query quiet Opened (arrive-IsOpen job rows frame bs rest) _ _
            (λ w o. ((o.row, o.found), o)))
          (λ f. Runs-given Opened _ _ _ (λ (j, same). rw same (
            Runs-bind Opened (λ _ w. Opened w) _ _ _ (Runs-pure _ _ j (λ w o. o)) (λ k. resync k))))
      where
        resync :
            (k : ExportJob)
            → Runs {e = e} Opened
                (λ _ w. Opened w)
                (if agrees k s
                  then pure tt
                  else transact (update_job job.id (resynced s)) >> pure tt)
        resync k = elim (Bool-cases (agrees k s)) [
          | inl agree ↦ rw agree (Runs-pure _ _ tt (λ w o. o))
          | inr differ ↦ rw differ (
              Runs-bind Opened (λ _ w. Opened w) _ _ _
                (update-Runs job rows frame bs rest quiet (resynced s) (λ now j. ground arith))
                (λ _. Runs-pure _ _ tt (λ w o. o)))
        ]
