-- ===== src/Runner/Batches.antt =====
-- The loop over the batches keeps the tables as a run needs them
-- (server/src/services/exportRunner.service.ts).
use export_vault.Prelude.{
  ℕ, zero, suc, ◌+◌, refl, Option, none, some, List, [], ◌∷◌, Bool-cases, inl, inr, length,
  Option-cases,
}
use export_vault.Text.{Text}
use export_vault.Model.{ExportJob}
use export_vault.World.{Env, Db, M, transact}
use export_vault.World.Safe.{
  Safe, safe_rules, Safe-query, Safe-transact, Safe-pure, Safe-bind, Safe-if,
}
use export_vault.Jobs.{find_job}
use export_vault.Jobs.Laws.{update_job-All}
use export_vault.Records.{ExportableRow}
use export_vault.Storage.Safe.{put_object_verified-Safe, delete_chunks-Safe}
use export_vault.Runner.Honest.{RowOk, RowsOk, KeepsRow, KeepsRow-RowOk}
use export_vault.Runner.Loop.{
  LoopEnd, Progress, last_id_or_throw, crash_point, progressed, record_batch, has_batch,
  write_batch, stop_cancelled, on_rows, batches,
}
use export_vault.Runner.Verified.{is_cancel_requested-Safe, set_cancelled-Safe}

module _ (e : Env) (C : Option Text → Type 0) (job : ExportJob)
    (rely : (n : ℕ) (d : Db) → RowsOk C job d → RowsOk C job (e.others n d)) where
  abbrev Inv : Db → Type 0
  Inv = RowsOk C job

  progresses : (last exported : ℕ) → KeepsRow (progressed last exported)
  progresses last exported = record {
    id = λ now j. refl;
    rows = λ now j. refl;
    snapshot = λ now j. refl;
    file = λ now j. refl;
    status = λ now j c. c;
  }

  last_id_or_throw-Safe : (last : Option ℕ) → Safe {e = e} Inv (last_id_or_throw last)
  unfolding last_id_or_throw
  last_id_or_throw-Safe none = search safe_rules
  last_id_or_throw-Safe (some n) = search safe_rules

  crash_point-Safe :
      (limit : Option ℕ) (exported : ℕ) → Safe {e = e} Inv (crash_point limit exported)
  unfolding crash_point
  crash_point-Safe none exported = search safe_rules
  crash_point-Safe (some limit) exported = search safe_rules

  record_batch-RowsOk :
      (id : Text) (n last rows exported : ℕ) (d : Db)
      → Inv d
      → Inv (record_batch id n last rows exported d).1
  unfolding record_batch
  record_batch-RowsOk id n last rows exported d i =
      elim (Bool-cases (has_batch id n d.checkpoints)) [
        | inl taken ↦ rw taken i
        | inr free ↦ elim (Option-cases (find_job id d.jobs)) [
          | inl missing ↦ rw (free, missing, record_batch) i
          | inr (j, found) ↦
              rw (free, found, record_batch)
                (update_job-All (RowOk C job) id (progressed last exported) _
                  (λ now k same.
                    KeepsRow-RowOk C job (progressed last exported) (progresses last exported) now
                      k)
                  i)
        ]
      ]

  record_batch-Safe :
      (id : Text) (n last rows exported : ℕ)
      → Safe {e = e} Inv (transact (record_batch id n last rows exported))
  record_batch-Safe id n last rows exported =
      Safe-transact Inv rely (record_batch id n last rows exported)
        (record_batch-RowsOk id n last rows exported)

  write_batch-Safe :
      (p : Progress) (rows : List ExportableRow) → Safe {e = e} Inv (write_batch job p rows)
  unfolding write_batch
  write_batch-Safe p rows = Safe-bind Inv _ _ (last_id_or_throw-Safe _) (λ last.
      Safe-bind Inv _ _ (put_object_verified-Safe Inv rely _ _) (λ _.
        Safe-bind Inv _ _ (record_batch-Safe _ _ _ _ _) (λ _.
          Safe-bind Inv _ _
            (crash_point-Safe e.crash_after_rows (p.exported_row_count + length rows))
            (λ _. Safe-pure Inv _))))

  stop_cancelled-Safe : (p : Progress) → Safe {e = e} Inv (stop_cancelled job p)
  unfolding stop_cancelled
  stop_cancelled-Safe p =
      Safe-bind Inv _ _ (set_cancelled-Safe e C job rely job.id)
        (λ _. Safe-bind Inv _ _ (delete_chunks-Safe Inv rely job.id) (λ _. Safe-pure Inv _))

  on_rows-Safe :
      (rows : List ExportableRow) (nothing batch : M e LoopEnd)
      → Safe Inv nothing
      → Safe Inv batch
      → Safe Inv (on_rows rows nothing batch)
  on_rows-Safe [] nothing batch n b = n
  on_rows-Safe (r ∷ rows) nothing batch n b = b

  pub batches-Safe : (fuel : ℕ) (p : Progress) → Safe {e = e} Inv (batches fuel job p)
  unfolding batches
  batches-Safe zero p = Safe-pure Inv _
  batches-Safe (suc fuel) p = Safe-if Inv _ _ _ (Safe-pure Inv _) (
      Safe-bind Inv _ _ (is_cancel_requested-Safe e C job rely job.id) (λ cancel.
        Safe-if Inv cancel _ _ (stop_cancelled-Safe p) (
          Safe-bind Inv _ _ (Safe-query Inv rely _) (λ rows.
            on_rows-Safe rows _ _ (Safe-pure Inv _)
              (Safe-bind Inv _ _ (write_batch-Safe p rows) (λ q. batches-Safe fuel q))))))
