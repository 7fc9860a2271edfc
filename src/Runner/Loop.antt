-- ===== src/Runner/Loop.antt =====
-- The loop over the batches (server/src/services/exportRunner.service.ts).
use Prim.Native.Nat.{min}
use export_vault.Prelude.{
  ℕ, zero, suc, ◌+◌, ◌-◌, Bool, true, false, not, ◌&&◌, ◌==◌, Option, none, some, List, [], ◌∷◌,
  map, leb, ltb, if◌then◌else◌, length,
}
use export_vault.Prelude.Int.{pos, negsuc}
use export_vault.Text.{Text}
use export_vault.Text.BigInt.{big_int}
use export_vault.Text.Utf8.{utf8}
use export_vault.Csv.{serialize_csv_chunk}
use export_vault.Records.{ExportableRow, column_value, fetch_record_batch}
use export_vault.Model.{ExportJob, ExportCheckpoint}
use export_vault.Model.Errors.{plain, foreign}
use export_vault.Result.{Result, ok, err}
use export_vault.World.{Env, Db, M, ◌>>=◌, ◌>>◌, pure, throw, exit, transact, query}
use export_vault.Jobs.{find_job, update_job, p2025}
use export_vault.Text.{text_eq}
use export_vault.Storage.{chunk_key, put_object_verified, delete_chunks}
use export_vault.Runner.Steps.{is_cancel_requested, set_cancelled}

-- How the loop ends: by its test, by a cancellation, or for want of rows. `out_of_fuel` is no end of
-- the source's loop: Runner/Fuel shows that it is never reached.
pub data LoopEnd : Type 0 where
  finished cancelled_at : ℕ → LoopEnd
  exhausted : (exported after : ℕ) → LoopEnd
  out_of_fuel : LoopEnd

-- BigInt(rows[rows.length - 1]!.id); a record's id is not negative
unfoldable pub batch_last_id : List ExportableRow → Option ℕ
unfolding big_int
batch_last_id [] = none
batch_last_id (r ∷ []) = elim (big_int r.id) [
  | none ↦ none
  | some v ↦ elim v [ pos n ↦ some n | negsuc n ↦ none ]
]
batch_last_id (r ∷ s ∷ rows) = batch_last_id (s ∷ rows)

-- The bytes of a batch.
unfoldable pub batch_payload : List ExportableRow → List ℕ
batch_payload rows = utf8 (serialize_csv_chunk (map column_value rows))

abbrev pub p2002 : ℕ
p2002 = 2002

-- The unique index on (export_job_id, batch_number).
unfoldable pub has_batch : Text → ℕ → List ExportCheckpoint → Bool
unfolding text_eq
has_batch id n [] = false
has_batch id n (c ∷ cs) =
    if text_eq c.export_job_id id && c.batch_number == n then true else has_batch id n cs

abbrev pub progressed : (last_id exported : ℕ) → ℕ → ExportJob → ExportJob
progressed last_id exported now k = record k {
  last_exported_id = some last_id;
  exported_row_count = exported;
}

-- The transaction of a batch: the checkpoint and the progress of the job, both or neither.
unfoldable pub record_batch :
    (id : Text) (batch_number last_id rows exported : ℕ) → Db → Result (Unit {0}) × Db
unfolding find_job has_batch update_job
record_batch id batch_number last_id rows exported d =
    if has_batch id batch_number d.checkpoints
    then (err (plain (foreign p2002)), d)
    else elim (find_job id d.jobs) [
      | none ↦ (err (plain (foreign p2025)), d)
      | some j ↦
          let c : ExportCheckpoint = record {
            export_job_id = id;
            batch_number = batch_number;
            last_record_id = last_id;
            rows_written = rows;
          } in
          (
            ok tt,
            (update_job id (progressed last_id exported)
                (record d { checkpoints = c ∷ d.checkpoints })).1,
          )
    ]

-- The variables of the loop.
pub record Progress : Type 0 where
  pub last_exported_id : ℕ
  pub exported_row_count : ℕ
  pub batch_number : ℕ

abbrev pub next_limit : ExportJob → Progress → ℕ
next_limit job p = min job.batch_size (job.requested_row_limit - p.exported_row_count)

module _ {e : Env} where
  unfoldable pub last_id_or_throw : Option ℕ → M e ℕ
  last_id_or_throw none = throw (plain (foreign 0))
  last_id_or_throw (some n) = pure n

  -- EXPORT_CRASH_AFTER_ROWS
  unfoldable pub crash_point : Option ℕ → ℕ → M e (Unit {0})
  crash_point none exported = pure tt
  crash_point (some limit) exported = if leb limit exported then exit else pure tt

  -- One batch: written, confirmed, and only then recorded.
  unfoldable pub write_batch : ExportJob → Progress → List ExportableRow → M e Progress
  unfolding last_id_or_throw crash_point batch_payload record_batch
  write_batch job p rows = do
    last_id ← last_id_or_throw (batch_last_id rows)
    put_object_verified (chunk_key job.id p.batch_number) (batch_payload rows)
    transact (
        record_batch job.id p.batch_number last_id (length rows)
          (p.exported_row_count + length rows))
    crash_point e.crash_after_rows (p.exported_row_count + length rows)
    pure (record {
      last_exported_id = last_id;
      exported_row_count = p.exported_row_count + length rows;
      batch_number = p.batch_number + 1;
    })

  -- The branch of a cancellation.
  unfoldable pub stop_cancelled : ExportJob → Progress → M e LoopEnd
  stop_cancelled job p = do
    set_cancelled job.id
    delete_chunks job.id
    pure (cancelled_at p.exported_row_count)

  abbrev pub on_rows : List ExportableRow → M e LoopEnd → M e LoopEnd → M e LoopEnd
  on_rows [] nothing batch = nothing
  on_rows (r ∷ rows) nothing batch = batch

  unfoldable pub batches : ℕ → ExportJob → Progress → M e LoopEnd
  unfolding fetch_record_batch
  batches zero job p = pure out_of_fuel
  batches (suc fuel) job p =
      if not (ltb p.exported_row_count job.requested_row_limit)
      then pure (finished p.exported_row_count)
      else do
        cancel ← is_cancel_requested job.id
        if cancel then stop_cancelled job p else do
          rows ← query (λ d.
              fetch_record_batch p.last_exported_id job.snapshot_max_id (next_limit job p)
                d.records)
          on_rows rows (pure (exhausted p.exported_row_count p.last_exported_id))
              (do q ← write_batch job p rows; batches fuel job q)
