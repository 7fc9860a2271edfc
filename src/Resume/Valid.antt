-- ===== src/Resume/Valid.antt =====
-- When a checkpoint log is accepted, and what position it gives
-- (server/src/services/exportResume.service.ts).
use export_vault.Prelude.{
  ℕ, suc, ◌+◌, ◌<◌, ◌≡◌, ◌↔◌, ◌∙◌, refl, sym, inl, inr, List, [], ◌∷◌, arith, length,
}
use export_vault.Model.{ExportCheckpoint}
use export_vault.Result.{ok, Result-cases, ok_injective}
use export_vault.Resume.{ResumeState, check_log, last_checkpoint, position, resume_state}

-- The batches are numbered without a gap, and their last ids strictly increase.
abbrev pub IsLog : (expected previous : ℕ) → List ExportCheckpoint → Type 0
IsLog expected previous [] = Unit
IsLog expected previous (c ∷ cs) =
    (c.batch_number ≡ expected)
    × (previous < c.last_record_id)
    × IsLog (expected + 1) c.last_record_id cs

abbrev pub rows_of : List ExportCheckpoint → ℕ
rows_of [] = 0
rows_of (c ∷ cs) = c.rows_written + rows_of cs

abbrev pub last_id_of : ℕ → List ExportCheckpoint → ℕ
last_id_of previous [] = previous
last_id_of previous (c ∷ cs) = last_id_of c.last_record_id cs

pub check_log_iff :
    (expected previous written : ℕ) (log : List ExportCheckpoint) (total : ℕ)
    → (check_log expected previous written log ≡ ok total)
      ↔ (IsLog expected previous log × (total ≡ written + rows_of log))
unfolding check_log
check_log_iff expected previous written [] total = ground arith
check_log_iff expected previous written (c ∷ cs) total =
    ground
      (arith, check_log_iff (expected + 1) c.last_record_id (written + c.rows_written) cs total)

last_checkpoint-batch_number :
    (expected previous : ℕ) (c : ExportCheckpoint) (cs : List ExportCheckpoint)
    → IsLog expected previous (c ∷ cs)
    → (last_checkpoint c cs).batch_number + 1 ≡ expected + length (c ∷ cs)
unfolding last_checkpoint
last_checkpoint-batch_number expected previous c [] (b, lt, h) = omega arith
last_checkpoint-batch_number expected previous c (d ∷ cs) (b, lt, h) =
    omega (arith, last_checkpoint-batch_number (expected + 1) c.last_record_id d cs h)

last_checkpoint-last_record_id :
    (previous : ℕ) (c : ExportCheckpoint) (cs : List ExportCheckpoint)
    → (last_checkpoint c cs).last_record_id ≡ last_id_of previous (c ∷ cs)
unfolding last_checkpoint
last_checkpoint-last_record_id previous c [] = refl
last_checkpoint-last_record_id previous c (d ∷ cs) =
    last_checkpoint-last_record_id c.last_record_id d cs

-- The position behind a log.
abbrev pub position_of : List ExportCheckpoint → ResumeState
position_of log = record {
  next_batch_number = suc (length log);
  last_exported_id = last_id_of 0 log;
  rows_written = rows_of log;
  checkpoint_count = length log;
}

-- A log whose batches are numbered from 1 without a gap, and whose last ids strictly increase from
-- 0, gives the position behind its last batch.
pub resume_state_of_IsLog :
    (log : List ExportCheckpoint) → IsLog 1 0 log → resume_state log ≡ ok (position_of log)
unfolding resume_state position
resume_state_of_IsLog [] h = refl
resume_state_of_IsLog (c ∷ cs) h = ground (
  arith,
  (check_log_iff 1 0 0 (c ∷ cs) (rows_of (c ∷ cs))).1 (h, omega arith),
  last_checkpoint-batch_number 1 0 c cs h,
  last_checkpoint-last_record_id 0 c cs,
)

IsLog-of_resume_state :
    (log : List ExportCheckpoint) (s : ResumeState) → resume_state log ≡ ok s → IsLog 1 0 log
unfolding resume_state position
IsLog-of_resume_state [] s e = tt
IsLog-of_resume_state (c ∷ cs) s e = elim (Result-cases (check_log 1 0 0 (c ∷ cs))) [
  | inl (total, passed) ↦ ((check_log_iff 1 0 0 (c ∷ cs) total).0 passed).0
  | inr (why, refused) ↦ absurd (ground arith)
]

-- A log is accepted exactly when its batches are numbered from 1 without a gap and their last ids
-- strictly increase from 0; the position is then that behind the log: the next number, the last id,
-- the sum of the rows, and the number of checkpoints. Every other log throws.
pub resume_state_iff :
    (log : List ExportCheckpoint) (s : ResumeState)
    → (resume_state log ≡ ok s) ↔ (IsLog 1 0 log × (s ≡ position_of log))
resume_state_iff log s = (
  λ e.
      let valid = IsLog-of_resume_state log s e in
      (valid, ok_injective (sym e ∙ resume_state_of_IsLog log valid)),
  λ (valid, same). rw same (resume_state_of_IsLog log valid),
)
