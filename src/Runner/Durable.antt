-- ===== src/Runner/Durable.antt =====
-- What a run has made durable, as batches of rows: the checkpoint log and the chunks in the object
-- store that they stand for (server/src/services/exportRunner.service.ts).
pub mod Log
pub mod Chunks
pub mod Bytes
use export_vault.Prelude.{
  ℕ, suc, ◌+◌, ◌<◌, ◌≡◌, refl, false, some, List, [], ◌∷◌, ◌++◌, map, length, concat, All,
}
use export_vault.Text.{Text}
use export_vault.Csv.{CsvColumn, Value}
use export_vault.Model.{RawRecordRow, ExportJob, ExportCheckpoint}
use export_vault.Result.{ok}
use export_vault.World.{Env, Db, World}
use export_vault.Jobs.{find_job}
use export_vault.Records.{normalise_record, column_value}
use export_vault.Records.Eligible.{eligible}
use export_vault.Records.Ascending.{row_id, last_row_id}
use export_vault.Query.Order.{IsAscending}
use export_vault.Resume.{checkpoints_of}
use export_vault.Storage.{chunk_key}
use export_vault.Runner.Loop.{Progress, batch_payload}

abbrev pub csv_row : RawRecordRow → CsvColumn → Value
csv_row r = column_value (normalise_record r)

-- The bytes of one batch.
abbrev pub chunk_bytes : List RawRecordRow → List ℕ
chunk_bytes rows = batch_payload (map normalise_record rows)

abbrev pub checkpoint : Text → ℕ → List RawRecordRow → ExportCheckpoint
checkpoint id n b = record {
  export_job_id = id;
  batch_number = n;
  last_record_id = last_row_id 0 b;
  rows_written = length b;
}

-- The log of batches numbered from `n`.
abbrev pub log_of : Text → ℕ → List (List RawRecordRow) → List ExportCheckpoint
log_of id n [] = []
log_of id n (b ∷ bs) = checkpoint id n b ∷ log_of id (n + 1) bs

-- The chunks of batches numbered from `n` are in the object store.
abbrev pub Stored : (e : Env) → Text → ℕ → List (List RawRecordRow) → e.Objects → Type 0
Stored e id n [] o = Unit
Stored e id n (b ∷ bs) o =
    (e.get_object (chunk_key id n) o ≡ ok (some (chunk_bytes b))) × Stored e id (n + 1) bs o

-- The rows of a job's snapshot, as they stood when it was created.
pub record IsSnapshot (rows : List RawRecordRow) : Type 0 where
  pub positive : All (λ r. 0 < r.id) rows
  pub ascending : IsAscending row_id rows

-- The log of the job is that of the batches, every chunk of them is stored, and they are the first
-- rows of the snapshot, in order; `rest` are those that are still to be exported.
pub record Durable (e : Env) (job : ExportJob) (rows : List RawRecordRow)
    (bs : List (List RawRecordRow)) (rest : List RawRecordRow) (w : World e) : Type 0 where
  pub logged : checkpoints_of job.id w.db.checkpoints ≡ log_of job.id 1 bs
  pub snapshot : eligible job.snapshot_max_id w.db.records ≡ rows
  pub whole : concat bs ++ rest ≡ rows
  pub filled : All (λ b. 0 < length b) bs
  pub stored : Stored e job.id 1 bs w.objects

-- A row that still says what the job was ordered with.
pub record HasTerms (job row : ExportJob) : Type 0 where
  pub same_id : row.id ≡ job.id
  pub same_boundary : row.snapshot_max_id ≡ job.snapshot_max_id
  pub same_limit : row.requested_row_limit ≡ job.requested_row_limit
  pub same_size : row.batch_size ≡ job.batch_size
  pub same_flag : row.cancel_requested ≡ job.cancel_requested

pub HasTerms-refl : (job : ExportJob) → HasTerms job job
HasTerms-refl job = record {
  same_id = refl;
  same_boundary = refl;
  same_limit = refl;
  same_size = refl;
  same_flag = refl;
}

-- A job whose progress is durable, and that nobody has asked to cancel.
pub record IsOpen (e : Env) (job : ExportJob) (rows : List RawRecordRow)
    (bs : List (List RawRecordRow)) (rest : List RawRecordRow) (w : World e) : Type 0 where
  pub durable : Durable e job rows bs rest w
  pub row : ExportJob
  pub found : find_job job.id w.db.jobs ≡ some row
  pub terms : HasTerms job row
  pub wanted : row.cancel_requested ≡ false

-- What the other processes leave alone between two calls: the job's row, its checkpoints and the
-- rows of its snapshot. They may insert records above the boundary, and work on other jobs.
pub record Frame (job : ExportJob) (d d' : Db) : Type 0 where
  pub same_job : find_job job.id d'.jobs ≡ find_job job.id d.jobs
  pub same_log : checkpoints_of job.id d'.checkpoints ≡ checkpoints_of job.id d.checkpoints
  pub same_snapshot :
      eligible job.snapshot_max_id d'.records ≡ eligible job.snapshot_max_id d.records

-- The variables of the loop behind the batches.
abbrev pub progress_of : List (List RawRecordRow) → Progress
progress_of bs = record {
  last_exported_id = last_row_id 0 (concat bs);
  exported_row_count = length (concat bs);
  batch_number = suc (length bs);
}
