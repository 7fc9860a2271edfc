-- ===== src/Runner/Recovery/Attempt.antt =====
-- A job over several attempts: runs in which anything may fail, and what happens to its row between
-- them (server/src/services/exportRunner.service.ts, stalledJobs.service.ts, export.service.ts).
use export_vault.Prelude.{ℕ, ◌≡◌, Option, some}
use export_vault.Text.{Text}
use export_vault.Model.{ExportJob}
use export_vault.World.{Env, Db, World, Fault}
use export_vault.Jobs.{find_job}
use export_vault.Records.Eligible.{eligible}
use export_vault.Resume.{checkpoints_of}
use export_vault.Runner.{run_export_job}
use export_vault.Runner.Durable.{HasTerms}

-- A worker process with its own faults, on the same tables, store and queue.
abbrev pub with_faults : (ℕ → Option Fault) → Option ℕ → Env → Env
with_faults f crash e = record e { fault = f; crash_after_rows = crash }

module _ {e : Env} where
  abbrev pub enter :
      (f : ℕ → Option Fault) (crash : Option ℕ) → World e → World (with_faults f crash e)
  enter f crash w = record {
    db = w.db;
    objects = w.objects;
    queue = w.queue;
    in_flight = w.in_flight;
    wakes_sent = w.wakes_sent;
    calls = w.calls;
  }

  abbrev pub leave :
      (f : ℕ → Option Fault) (crash : Option ℕ) → World (with_faults f crash e) → World e
  leave f crash w = record {
    db = w.db;
    objects = w.objects;
    queue = w.queue;
    in_flight = w.in_flight;
    wakes_sent = w.wakes_sent;
    calls = w.calls;
  }

  -- What one run of the job leaves behind, whether it returns, throws or dies.
  abbrev pub attempt : (ℕ → Option Fault) → Option ℕ → Text → World e → World e
  attempt f crash id w =
      leave f crash (run_export_job {e = with_faults f crash e} id (enter f crash w)).1

-- What may happen to the tables between two attempts: the job's row changes, but not what was
-- ordered; its log and its snapshot stay.
pub record Between (job : ExportJob) (d d' : Db) : Type 0 where
  pub row_kept :
      (row : ExportJob)
      → find_job job.id d.jobs ≡ some row
      → (row' : ExportJob) × (find_job job.id d'.jobs ≡ some row') × HasTerms row row'
  pub same_log : checkpoints_of job.id d'.checkpoints ≡ checkpoints_of job.id d.checkpoints
  pub same_snapshot :
      eligible job.snapshot_max_id d'.records ≡ eligible job.snapshot_max_id d.records

-- The worlds that a job comes to.
pub data Attempts (e : Env) (job : ExportJob) (w : World e) : World e → Type 0 where
  begin : Attempts e job w w
  run :
      {v : World e}
      → Attempts e job w v
      → (f : ℕ → Option Fault) (crash : Option ℕ) → Attempts e job w (attempt f crash job.id v)
  between :
      {v : World e}
      → Attempts e job w v
      → (d : Db) → Between job v.db d
      → Attempts e job w (record v { db = d })
