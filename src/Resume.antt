-- ===== src/Resume.antt =====
-- server/src/services/exportResume.service.ts: the position of a run, from its checkpoints.
pub mod Valid
use export_vault.Prelude.{
  ℕ, suc, ◌+◌, Bool, not, Option, none, some, List, [], ◌∷◌, ltb, leb, ◌==◌, if◌then◌else◌, length,
  keep,
}
use export_vault.Text.{Text, text_eq}
use export_vault.Query.{order_by}
use export_vault.Model.{ExportCheckpoint}
use export_vault.Model.Errors.{AppError, export_integrity_error, checkpoint_gap, checkpoint_order}
use export_vault.Result.{Result, ok, err}

pub record ResumeState : Type 0 where
  pub next_batch_number : ℕ
  pub last_exported_id : ℕ
  pub rows_written : ℕ
  pub checkpoint_count : ℕ

-- WHERE export_job_id = … ORDER BY batch_number ASC
unfoldable pub checkpoints_of : Text → List ExportCheckpoint → List ExportCheckpoint
unfolding order_by text_eq
checkpoints_of job table =
    order_by (λ c. c.batch_number) (keep (λ c. text_eq c.export_job_id job) table)

-- The loop: `expected` is the batch number that has to come next, `previous` and `written` are
-- `previousLastId` and `rowsWritten`, and the result is `rowsWritten` behind the loop.
unfoldable pub check_log : (expected previous written : ℕ) → List ExportCheckpoint → Result ℕ
check_log expected previous written [] = ok written
check_log expected previous written (c ∷ cs) =
    if not (c.batch_number == expected)
    then err (export_integrity_error (checkpoint_gap expected c.batch_number))
    else if leb c.last_record_id previous
    then err (export_integrity_error (checkpoint_order c.batch_number c.last_record_id previous))
    else check_log (expected + 1) c.last_record_id (written + c.rows_written) cs

-- checkpoints[checkpoints.length - 1], of a list that is not empty
last_checkpoint : ExportCheckpoint → List ExportCheckpoint → ExportCheckpoint
last_checkpoint c [] = c
last_checkpoint c (d ∷ cs) = last_checkpoint d cs

position : ExportCheckpoint → List ExportCheckpoint → Result ℕ → Result ResumeState
unfolding last_checkpoint
position c cs (err e) = err e
position c cs (ok written) = ok (record {
  next_batch_number = (last_checkpoint c cs).batch_number + 1;
  last_exported_id = (last_checkpoint c cs).last_record_id;
  rows_written = written;
  checkpoint_count = length (c ∷ cs);
})

unfoldable pub resume_state : List ExportCheckpoint → Result ResumeState
unfolding check_log position
resume_state [] =
    ok (record {
      next_batch_number = 1;
      last_exported_id = 0;
      rows_written = 0;
      checkpoint_count = 0;
    })
resume_state (c ∷ cs) = position c cs (check_log 1 0 0 (c ∷ cs))

-- The lookup, and the checks.
unfoldable pub load_resume_state : Text → List ExportCheckpoint → Result ResumeState
unfolding checkpoints_of resume_state
load_resume_state job table = resume_state (checkpoints_of job table)
