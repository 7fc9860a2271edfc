-- ===== src/Runner/Durable/Log.antt =====
-- The log of batches is accepted, and gives the position behind them
-- (server/src/services/exportResume.service.ts).
use export_vault.Prelude.{
  ℕ, suc, ◌+◌, ◌<◌, ◌≡◌, ◌∙◌, refl, sym, ap, false, List, [], ◌∷◌, ◌++◌, arith, append_assoc,
  length, length-append, concat, All, keep, Bool-cases, inl, inr,
}
use export_vault.Text.{Text, text_eq, text_eq_iff}
use export_vault.Model.{RawRecordRow, ExportCheckpoint}
use export_vault.Result.{ok}
use export_vault.Query.{order_by}
use export_vault.Query.Order.{IsAscending, insert_by_greatest, All-of_order_by}
use export_vault.Records.Ascending.{row_id, last_row_id, last_row_id-append, ascending-IsCut}
use export_vault.Resume.{checkpoints_of, load_resume_state}
use export_vault.Resume.Valid.{IsLog, rows_of, last_id_of, position_of, resume_state_of_IsLog}
use export_vault.Runner.{begin_at}
use export_vault.Runner.Loop.{has_batch}
use export_vault.Runner.Durable.{log_of, checkpoint, progress_of}

length-log_of :
    (id : Text) (n : ℕ) (bs : List (List RawRecordRow)) → length (log_of id n bs) ≡ length bs
length-log_of id n [] = refl
length-log_of id n (b ∷ bs) = ap suc (length-log_of id (n + 1) bs)

rows_of-log_of :
    (id : Text) (n : ℕ) (bs : List (List RawRecordRow))
    → rows_of (log_of id n bs) ≡ length (concat bs)
rows_of-log_of id n [] = refl
rows_of-log_of id n (b ∷ bs) =
    omega (arith, rows_of-log_of id (n + 1) bs, length-append b (concat bs))

last_row_id_filled :
    (d : ℕ) (b : List RawRecordRow) → 0 < length b → last_row_id 0 b ≡ last_row_id d b
last_row_id_filled d [] h = absurd (omega arith)
last_row_id_filled d (r ∷ rs) h = refl

last_id_of-log_of :
    (id : Text) (n d : ℕ) (bs : List (List RawRecordRow))
    → All (λ b. 0 < length b) bs
    → last_id_of d (log_of id n bs) ≡ last_row_id d (concat bs)
last_id_of-log_of id n d [] h = refl
last_id_of-log_of id n d (b ∷ bs) (here, h) =
    last_id_of-log_of id (n + 1) (last_row_id 0 b) bs h
    ∙ ap (λ k. last_row_id k (concat bs)) (last_row_id_filled d b here)
    ∙ sym (last_row_id-append d b (concat bs))

log_of-IsLog :
    (id : Text) (n d : ℕ) (bs : List (List RawRecordRow)) (rest : List RawRecordRow)
    → All (λ b. 0 < length b) bs
    → All (λ r. d < r.id) (concat bs ++ rest)
    → IsAscending row_id (concat bs ++ rest)
    → IsLog n d (log_of id n bs)
log_of-IsLog id n d [] rest h above asc = tt
log_of-IsLog id n d (b ∷ bs) rest (here, h) above asc =
    let joined = append_assoc b (concat bs) rest in
    let cut = ascending-IsCut d b (concat bs ++ rest) (rw joined at above) (rw joined at asc) in
    let same = last_row_id_filled d b here in
    (
      refl,
      omega (arith, cut.grows, here, same),
      log_of-IsLog id (n + 1) (last_row_id 0 b) bs rest h (rw (← same) at cut.high) cut.behind,
    )

module _ (id : Text) (bs : List (List RawRecordRow)) (rest : List RawRecordRow)
    (filled : All (λ b. 0 < length b) bs) (positive : All (λ r. 0 < r.id) (concat bs ++ rest))
    (ascending : IsAscending row_id (concat bs ++ rest)) where
  -- The log of the batches is accepted.
  pub load_resume_state-log_of :
      (table : List ExportCheckpoint)
      → checkpoints_of id table ≡ log_of id 1 bs
      → load_resume_state id table ≡ ok (position_of (log_of id 1 bs))
  unfolding load_resume_state
  load_resume_state-log_of table logged = rw logged (
      resume_state_of_IsLog (log_of id 1 bs)
        (log_of-IsLog id 1 0 bs rest filled positive ascending))

-- The position behind the log is the progress behind the batches.
pub begin_at-log_of :
    (id : Text) (bs : List (List RawRecordRow))
    → All (λ b. 0 < length b) bs
    → begin_at (position_of (log_of id 1 bs)) ≡ progress_of bs
begin_at-log_of id bs filled = λ i. record {
  last_exported_id = last_id_of-log_of id 1 0 bs filled i;
  exported_row_count = rows_of-log_of id 1 bs i;
  batch_number = suc (length-log_of id 1 bs i);
}

pub rows_written-log_of :
    (id : Text) (bs : List (List RawRecordRow))
    → (position_of (log_of id 1 bs)).rows_written ≡ length (concat bs)
rows_written-log_of id bs = rows_of-log_of id 1 bs

pub checkpoint_count-log_of :
    (id : Text) (bs : List (List RawRecordRow))
    → (position_of (log_of id 1 bs)).checkpoint_count ≡ length bs
checkpoint_count-log_of id bs = length-log_of id 1 bs

log_of_below :
    (id : Text) (n : ℕ) (bs : List (List RawRecordRow)) (m : ℕ)
    → m ≡ n + length bs
    → All (λ c. c.batch_number < m) (log_of id n bs)
log_of_below id n [] m h = tt
log_of_below id n (b ∷ bs) m h = (omega arith, log_of_below id (n + 1) bs m (omega arith))

log_of-append :
    (id : Text) (n : ℕ) (bs : List (List RawRecordRow)) (b : List RawRecordRow) (m : ℕ)
    → m ≡ n + length bs
    → log_of id n (bs ++ b ∷ []) ≡ log_of id n bs ++ checkpoint id m b ∷ []
log_of-append id n [] b m h = let same : n ≡ m = omega arith in rw same refl
log_of-append id n (c ∷ bs) b m h =
    ap (◌∷◌ (checkpoint id n c)) (log_of-append id (n + 1) bs b m (omega arith))

-- The checkpoint of one more batch is the end of the log.
pub checkpoints_of-cons :
    (id : Text) (bs : List (List RawRecordRow)) (b : List RawRecordRow)
    (table : List ExportCheckpoint)
    → checkpoints_of id table ≡ log_of id 1 bs
    → checkpoints_of id (checkpoint id (suc (length bs)) b ∷ table) ≡ log_of id 1 (bs ++ b ∷ [])
unfolding checkpoints_of order_by
checkpoints_of-cons id bs b table logged =
    rw ((text_eq_iff id id).1 refl, logged)
      (insert_by_greatest (λ c. c.batch_number) (checkpoint id (suc (length bs)) b) (log_of id 1 bs)
          (log_of_below id 1 bs (suc (length bs)) (omega arith))
        ∙ sym (log_of-append id 1 bs b (suc (length bs)) (omega arith)))

no_batch :
    (id : Text) (n : ℕ) (table : List ExportCheckpoint)
    → All (λ c. c.batch_number < n) (keep (λ c. text_eq c.export_job_id id) table)
    → has_batch id n table ≡ false
unfolding has_batch
no_batch id n [] h = refl
no_batch id n (c ∷ cs) h = elim (Bool-cases (text_eq c.export_job_id id)) [
  | inl same ↦
      let (lt, rest) : All (λ d. d.batch_number < n)
          (c ∷ keep (λ d. text_eq d.export_job_id id) cs) =
        rw same at h in
      rw same (ground (arith, no_batch id n cs rest))
  | inr other ↦ rw other (no_batch id n cs (rw other at h))
]

-- The next batch number is free.
pub has_batch-next :
    (id : Text) (bs : List (List RawRecordRow)) (table : List ExportCheckpoint)
    → checkpoints_of id table ≡ log_of id 1 bs
    → has_batch id (suc (length bs)) table ≡ false
unfolding checkpoints_of
has_batch-next id bs table logged = no_batch id (suc (length bs)) table (
    All-of_order_by (λ c. c.batch_number) (λ c. c.batch_number < suc (length bs)) _
      (rw logged (log_of_below id 1 bs (suc (length bs)) (omega arith))))
