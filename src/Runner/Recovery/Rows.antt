-- ===== src/Runner/Recovery/Rows.antt =====
-- Updates of the job's row by the sweeper and the API, between two attempts
-- (server/src/services/stalledJobs.service.ts, export.service.ts).
use export_vault.Prelude.{ℕ, ◌≡◌, ◌∙◌, refl, sym, ap, Bool, Option-cases, inl, inr, some}
use export_vault.Model.{ExportJob}
use export_vault.World.{Db}
use export_vault.Jobs.{find_job, update_job_where}
use export_vault.Jobs.Laws.{update_job_where_found}
use export_vault.Records.Eligible.{eligible}
use export_vault.Resume.{checkpoints_of}
use export_vault.Runner.Durable.{HasTerms-refl}
use export_vault.Runner.Exact.Open.{KeepsTerms, HasTerms-update_where}
use export_vault.Runner.Recovery.Attempt.{Between}

module _ (job : ExportJob) (p : ℕ → ExportJob → Bool) (f : ℕ → ExportJob → ExportJob)
    (keeps : KeepsTerms f) (d : Db) where
  found-Between :
      (row : ExportJob)
      → find_job job.id d.jobs ≡ some row
      → Between job d (update_job_where job.id p f d).1
  found-Between row found =
      let (done, there, others) =
        update_job_where_found job.id p f d row found (keeps d.now row).same_id in
      record {
        row_kept = λ row' found'.
            let same : some row ≡ some row' = sym found ∙ found' in
            let same_row : row ≡ row' = cc in
            (
              _,
              there,
              rw (← same_row)
                  (HasTerms-update_where row row f d.now (p d.now row) keeps (HasTerms-refl row)),
            );
        same_log = ap (λ (t : Db). checkpoints_of job.id t.checkpoints) others;
        same_snapshot = ap (λ (t : Db). eligible job.snapshot_max_id t.records) others;
      }

  -- An update of the job's row with a condition, by anyone, that keeps what was ordered.
  pub update_job_where-Between : Between job d (update_job_where job.id p f d).1
  unfolding update_job_where
  update_job_where-Between = elim (Option-cases (find_job job.id d.jobs)) [
    | inl missing ↦
        rw (missing, update_job_where)
          (record {
            row_kept = λ row found. (row, found, HasTerms-refl row);
            same_log = refl;
            same_snapshot = refl;
          })
    | inr (row, found) ↦ found-Between row found
  ]
