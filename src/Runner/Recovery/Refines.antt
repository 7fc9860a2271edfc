-- ===== src/Runner/Recovery/Refines.antt =====
-- A job over several attempts, as an abstract machine that copies the rows of a snapshot in order
-- (server/src/services/exportRunner.service.ts).
use export_vault.Prelude.{ℕ, ◌≤◌, ◌<◌, ◌≡◌, List, ◌++◌, length, take}
use export_vault.Model.{RawRecordRow, ExportJob}
use export_vault.Records.Eligible.{eligible}
use export_vault.Resume.{checkpoints_of}
use export_vault.Resume.Valid.{position_of}
use export_vault.World.{Db, World}
use export_vault.Runner.Durable.{Durable}

-- The abstract machine: it has copied the first rows of a snapshot, and copies the next few, one or
-- more and never past the limit.
pub data Copies (snapshot : List RawRecordRow) (limit : ℕ)
    : List RawRecordRow → List RawRecordRow → Type 0 where
  still : {rows : List RawRecordRow} → Copies snapshot limit rows rows
  copy :
      {rows done : List RawRecordRow} (next rest : List RawRecordRow)
      → Copies snapshot limit rows done
      → 0 < length next
      → (done ++ next) ++ rest ≡ snapshot
      → length (done ++ next) ≤ limit
      → Copies snapshot limit rows (done ++ next)

-- What the tables say of a job: the first rows of its snapshot, as many as its checkpoints count.
abbrev pub copied : ExportJob → Db → List RawRecordRow
copied job d =
    take (position_of (checkpoints_of job.id d.checkpoints)).rows_written
      (eligible job.snapshot_max_id d.records)
