-- ===== src/Tests/RunWitnesses.antt =====
-- The theorems on whole runs at a run that goes on behind a crash, once undisturbed and once with a
-- call whose reply is lost and another that finds the process dead.
use export_vault.Prelude.{ℕ, ◌≡◌, refl, Option, none, some, [], ◌∷◌, arith, ◌==◌, if◌then◌else◌}
use export_vault.World.{Fault, reply_lost, death, returned}
use export_vault.Runner.{run_export_job, completed}
use export_vault.Runner.Exact.Finish.{IsExported}
use export_vault.Runner.Exact.Run.{run_export_job-exact}
use export_vault.Runner.Crash.{Saved}
use export_vault.Runner.Crash.Run.{run_export_job-Saved}
use export_vault.Tests.Fixture.{installation, row}
use export_vault.Tests.Laws.{installation-IsStore, installation-IsWilling, installation-IsParser}
use export_vault.Tests.Resumed.{
  crashed_job, first_batch, snapshot_rows, crashed, crashed-IsUndisturbed, snapshot_rows-IsSnapshot,
  crashed-IsRunnable, crashed-found, crashed-Durable, crashed-Frame,
}

abbrev quietly : ℕ → Option Fault
quietly n = none

run_export_job-exact_example :
    ((run_export_job {e = installation quietly} crashed_job.id (crashed quietly)).0
      ≡ returned (completed 3))
    × IsExported
        (installation quietly)
        crashed_job
        snapshot_rows
        (run_export_job {e = installation quietly} crashed_job.id (crashed quietly)).1
run_export_job-exact_example =
    run_export_job-exact {e = installation quietly} crashed_job snapshot_rows (first_batch ∷ [])
      (row 7 ∷ row 9 ∷ []) (crashed quietly) (installation-IsStore quietly)
      (installation-IsWilling quietly) (installation-IsParser quietly) crashed-IsUndisturbed
      snapshot_rows-IsSnapshot crashed-IsRunnable (omega arith) (crashed-Durable quietly)
      (crashed-found quietly)

-- The transaction of the batch loses its reply, and the process dies while the failure is recorded.
abbrev faulty : ℕ → Option Fault
faulty n = if n == 9 then some (reply_lost 1) else if n == 11 then some death else none

run_export_job-Saved_example :
    Saved
      (installation faulty)
      crashed_job
      snapshot_rows
      (first_batch ∷ [])
      (run_export_job {e = installation faulty} crashed_job.id (crashed faulty)).1
run_export_job-Saved_example =
    run_export_job-Saved {e = installation faulty} crashed_job snapshot_rows (first_batch ∷ [])
      (row 7 ∷ row 9 ∷ []) (crashed faulty) (installation-IsStore faulty) (crashed-Frame faulty)
      snapshot_rows-IsSnapshot refl (omega arith) (crashed-Durable faulty) (crashed-found faulty)
