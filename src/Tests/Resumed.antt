-- ===== src/Tests/Resumed.antt =====
-- The small installation behind a crash: one batch of two rows is durable, and a chunk that was
-- written without a checkpoint lies behind it.
use export_vault.Prelude.{ℕ, Option, ◌≡◌, refl, none, some, List, [], ◌∷◌, arith}
use export_vault.Text.{codes}
use export_vault.Model.{RawRecordRow, ExportJob}
use export_vault.Model.Errors
use export_vault.World.{World, Db, Fault}
use export_vault.Jobs.{find_job}
use export_vault.Query.{order_by}
use export_vault.Resume.{checkpoints_of}
use export_vault.Storage.{chunk_key}
use export_vault.Runner.Durable.{Durable, IsSnapshot, Frame, chunk_bytes, checkpoint}
use export_vault.Runner.Exact.Run.{IsUndisturbed, IsRunnable}
use export_vault.Tests.Fixture.{installation, start_of, job, row}

abbrev pub crashed_job : ExportJob
crashed_job = record job {
  status = Errors.interrupted;
  last_exported_id = some 4;
  exported_row_count = 2;
}

abbrev pub first_batch : List RawRecordRow
first_batch = row 2 ∷ row 4 ∷ []

abbrev pub snapshot_rows : List RawRecordRow
snapshot_rows = row 2 ∷ row 4 ∷ row 7 ∷ row 9 ∷ []

unfoldable pub crashed : (faults : ℕ → Option Fault) → World (installation faults)
unfolding installation start_of
crashed faults = record (start_of faults) {
  db = record (start_of faults).db {
    jobs = crashed_job ∷ [];
    checkpoints = checkpoint (codes "j1") 1 first_batch ∷ [];
  };
  objects =
      (chunk_key (codes "j1") 2, codes "torn")
      ∷ (chunk_key (codes "j1") 1, chunk_bytes first_batch)
      ∷ [];
}

pub crashed-IsUndisturbed : IsUndisturbed (installation (λ n. none)) crashed_job
unfolding installation
crashed-IsUndisturbed = record {
  quiet = λ n. refl;
  no_crash = refl;
  pages = omega arith;
  frame = λ n d. record { same_job = refl; same_log = refl; same_snapshot = refl };
}

pub snapshot_rows-IsSnapshot : IsSnapshot snapshot_rows
snapshot_rows-IsSnapshot = record { positive = ground arith; ascending = ground arith }

pub crashed-IsRunnable : IsRunnable crashed_job snapshot_rows
crashed-IsRunnable = record {
  size = omega arith;
  enough = omega arith;
  wanted = refl;
  resumable = refl;
}

module _ (faults : ℕ → Option Fault) where
  pub crashed-found : find_job crashed_job.id (crashed faults).db.jobs ≡ some crashed_job
  unfolding crashed find_job
  crashed-found = refl

  pub crashed-Durable :
      Durable
        (installation faults)
        crashed_job
        snapshot_rows
        (first_batch ∷ [])
        (row 7 ∷ row 9 ∷ [])
        (crashed faults)
  unfolding crashed installation start_of checkpoints_of order_by chunk_key
  crashed-Durable = record {
    logged = refl;
    snapshot = refl;
    whole = refl;
    filled = (omega arith, tt);
    stored = (refl, tt);
  }

  pub crashed-Frame : (n : ℕ) (d : Db) → Frame crashed_job d ((installation faults).others n d)
  unfolding installation
  crashed-Frame n d = record { same_job = refl; same_log = refl; same_snapshot = refl }
