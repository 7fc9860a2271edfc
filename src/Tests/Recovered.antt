-- ===== src/Tests/Recovered.antt =====
-- A job of the small installation over two attempts: the process of the first dies behind the second
-- batch, the sweep marks the job, and a run that nothing disturbs finishes it.
use mathlib.Core.Option
use export_vault.Prelude.{
  ℕ, ◌≡◌, ◌⊎◌, refl, true, map, Option, none, some, [], ◌∷◌, arith, ◌==◌, if◌then◌else◌,
}
use export_vault.Model.{ExportJob, ExportCheckpoint}
use export_vault.Model.Errors
use export_vault.World.{World, Fault, death, returned}
use export_vault.Jobs.{find_job, update_job_where, includes}
use export_vault.Sweeper.{to_interrupted, stall_message}
use export_vault.Runner.{run_export_job, completed}
use export_vault.Runner.Steps.{is_stale, resumable_statuses}
use export_vault.Runner.Exact.Finish.{IsExported}
use export_vault.Runner.Crash.{Kept}
use export_vault.Runner.Recovery.Attempt.{Attempts, begin, run, between, attempt}
use export_vault.Runner.Recovery.Rows.{update_job_where-Between}
use export_vault.Runner.Recovery.Chain.{Written, Attempts-Kept, recovered_run-exact}
use export_vault.Tests.Runs.{running_code}
use export_vault.Tests.Fixture.{installation, start_of, row}
use export_vault.Tests.Laws.{installation-IsStore, installation-IsWilling, installation-IsParser}
use export_vault.Tests.Resumed.{
  crashed_job, first_batch, snapshot_rows, crashed, crashed-IsUndisturbed, snapshot_rows-IsSnapshot,
  crashed-IsRunnable, crashed-found, crashed-Durable, crashed-Frame,
}

abbrev quietly : ℕ → Option Fault
quietly n = none

abbrev dies : ℕ → Option Fault
dies n = if n == 11 then some death else none

abbrev broken : World (installation quietly)
broken = attempt {e = installation quietly} dies none crashed_job.id (crashed quietly)

abbrev swept : World (installation quietly)
swept = record broken {
  db =
      (update_job_where crashed_job.id (λ now j. is_stale 45000 90000 j)
        (to_interrupted (stall_message crashed_job)) broken.db).1;
}

broken_status :
    Option.map (λ (j : ExportJob). j.status) (find_job crashed_job.id broken.db.jobs)
    ≡ some Errors.running
unfolding running_code installation start_of crashed find_job
broken_status = refl

broken_log : map (λ (c : ExportCheckpoint). c.last_record_id) broken.db.checkpoints ≡ 7 ∷ 4 ∷ []
unfolding running_code installation start_of crashed find_job
broken_log = refl

swept_row : ExportJob
unfolding running_code installation start_of crashed find_job
swept_row = elim (find_job crashed_job.id swept.db.jobs) [ none ↦ crashed_job | some j ↦ j ]

swept-found : find_job crashed_job.id swept.db.jobs ≡ some swept_row
unfolding running_code installation start_of crashed find_job swept_row
swept-found = refl

swept_resumable : includes resumable_statuses swept_row.status ≡ true
unfolding swept_row running_code installation start_of crashed find_job
swept_resumable = refl

two-Attempts : Attempts (installation quietly) crashed_job (crashed quietly) swept
two-Attempts = between (run begin dies none) _ (
    update_job_where-Between crashed_job (λ now j. is_stale 45000 90000 j)
      (to_interrupted (stall_message crashed_job)) (λ now j. ground arith) broken.db)

Attempts-Kept_example :
    Kept (installation quietly) crashed_job snapshot_rows (first_batch ∷ []) swept
    ⊎ Written {e = installation quietly} crashed_job snapshot_rows two-Attempts
Attempts-Kept_example =
    Attempts-Kept {e = installation quietly} crashed_job snapshot_rows (first_batch ∷ [])
      (row 7 ∷ row 9 ∷ []) (crashed quietly) (installation-IsStore quietly) (crashed-Frame quietly)
      snapshot_rows-IsSnapshot refl (omega arith) (crashed-Durable quietly) (crashed-found quietly)
      two-Attempts

recovered_run-exact_example :
    (((run_export_job {e = installation quietly} crashed_job.id swept).0 ≡ returned (completed 3))
      × IsExported
          (installation quietly)
          crashed_job
          snapshot_rows
          (run_export_job {e = installation quietly} crashed_job.id swept).1)
    ⊎ Written {e = installation quietly} crashed_job snapshot_rows two-Attempts
recovered_run-exact_example =
    recovered_run-exact {e = installation quietly} crashed_job snapshot_rows (first_batch ∷ [])
      (row 7 ∷ row 9 ∷ []) (crashed quietly) swept_row (installation-IsStore quietly)
      (installation-IsWilling quietly) (installation-IsParser quietly) crashed-IsUndisturbed
      snapshot_rows-IsSnapshot crashed-IsRunnable (omega arith) (crashed-Durable quietly)
      (crashed-found quietly) two-Attempts swept-found swept_resumable
