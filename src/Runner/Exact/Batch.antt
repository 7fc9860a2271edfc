-- ===== src/Runner/Exact/Batch.antt =====
-- One batch: written, confirmed and recorded (server/src/services/exportRunner.service.ts).
use export_vault.Prelude.{
  ℕ, suc, ◌+◌, ◌<◌, ◌≡◌, ◌∙◌, refl, sym, ap, false, none, some, List, [], ◌∷◌, ◌++◌, map, arith,
  length, Option, length-map, length-append, concat, concat-append, All-append, append_assoc,
}
use export_vault.Text.{Text}
use export_vault.Model.{RawRecordRow, ExportJob}
use export_vault.Result.{ok}
use export_vault.World.{Env, Db, World, arrive, transact}
use export_vault.World.Runs.{Runs, Runs-mono, Runs-pure, Runs-bind, Runs-known, Runs-transact}
use export_vault.World.Laws.{IsStore, IsWilling}
use export_vault.Jobs.{update_job, find_job}
use export_vault.Storage.{chunk_key}
use export_vault.Storage.Runs.{put_object_verified-Runs}
use export_vault.Records.{normalise_record}
use export_vault.Records.Ascending.{last_row_id, last_row_id-append}
use export_vault.Runner.Loop.{
  last_id_or_throw, crash_point, progressed, has_batch, record_batch, write_batch,
}
use export_vault.Runner.Durable.{IsOpen, Frame, chunk_bytes, checkpoint, progress_of}
use export_vault.Runner.Durable.Log.{checkpoints_of-cons, has_batch-next}
use export_vault.Runner.Durable.Chunks.{Stored-put_next, Stored-one_more}
use export_vault.Runner.Durable.Bytes.{batch_last_id-map}
use export_vault.Runner.Exact.Open.{same_tables-IsOpen, KeepsTerms, arrive-IsOpen, update-IsOpen}

module _ {e : Env} (P : World e → Type 0) where
  last_id_or_throw-Runs :
      (o : Option ℕ) (n : ℕ)
      → o ≡ some n
      → Runs {e = e} P (λ a w. (a ≡ n) × P w) (last_id_or_throw o)
  unfolding last_id_or_throw
  last_id_or_throw-Runs o n same = rw same (Runs-pure P _ n (λ w p. (refl, p)))

  crash_point-Runs :
      (o : Option ℕ) (n : ℕ) → o ≡ none → Runs {e = e} P (λ _ w. P w) (crash_point o n)
  unfolding crash_point
  crash_point-Runs o n same = rw same (Runs-pure P _ tt (λ w p. p))

-- The progress behind one more batch.
pub progress_of-append :
    (bs : List (List RawRecordRow)) (b : List RawRecordRow)
    → 0 < length b
    → record {
      last_exported_id = last_row_id 0 b;
      exported_row_count = length (concat bs) + length (map normalise_record b);
      batch_number = suc (length bs) + 1;
    }
      ≡ progress_of (bs ++ b ∷ [])
progress_of-append bs b h = λ i. record {
  last_exported_id = (last_id ∙ sym (ap (last_row_id 0) (concat-append bs b))) i;
  exported_row_count = (counted ∙ sym (ap length (concat-append bs b))) i;
  batch_number = numbers i;
}
  where
    from_zero : (d : ℕ) (c : List RawRecordRow) → 0 < length c → last_row_id 0 c ≡ last_row_id d c
    from_zero d [] k = absurd (omega arith)
    from_zero d (r ∷ rs) k = refl

    last_id : last_row_id 0 b ≡ last_row_id 0 (concat bs ++ b)
    last_id = from_zero (last_row_id 0 (concat bs)) b h ∙ sym (last_row_id-append 0 (concat bs) b)

    counted : length (concat bs) + length (map normalise_record b) ≡ length (concat bs ++ b)
    counted = omega (arith, length-append (concat bs) b, length-map normalise_record b)

    numbers : suc (length bs) + 1 ≡ suc (length (bs ++ b ∷ []))
    numbers = omega (arith, length-append bs (b ∷ []))

record_batch_free :
    (id : Text) (n last rows exported : ℕ) (d : Db) (j : ExportJob)
    → has_batch id n d.checkpoints ≡ false
    → find_job id d.jobs ≡ some j
    → record_batch id n last rows exported d ≡ (
      ok tt,
      (update_job id (progressed last exported) (record d {
        checkpoints =
            record {
              export_job_id = id;
              batch_number = n;
              last_record_id = last;
              rows_written = rows;
            }
            ∷ d.checkpoints;
      })).1,
    )
unfolding record_batch
record_batch_free id n last rows exported d j free found = rw (free, found, record_batch) refl

progresses : (last exported : ℕ) → KeepsTerms (progressed last exported)
progresses last exported now j = ground arith

module _ {e : Env} (job : ExportJob) (rows : List RawRecordRow) (bs : List (List RawRecordRow))
    (b rest : List RawRecordRow) where
  -- The job is open, and the next chunk is stored.
  pub record IsWritten (w : World e) : Type 0 where
    pub open_job : IsOpen e job rows bs (b ++ rest) w
    pub written :
        e.get_object (chunk_key job.id (suc (length bs))) w.objects ≡ ok (some (chunk_bytes b))

  -- The checkpoint of a batch whose chunk is stored makes the batch durable.
  checkpoint-IsOpen :
      (w : World e)
      → 0 < length b
      → IsWritten w
      → IsOpen e job rows (bs ++ b ∷ []) rest (record w {
        db = record w.db { checkpoints = checkpoint job.id (suc (length bs)) b ∷ w.db.checkpoints };
      })
  checkpoint-IsOpen w some_rows o = record {
    durable = record {
      logged = checkpoints_of-cons job.id bs b w.db.checkpoints o.open_job.durable.logged;
      snapshot = o.open_job.durable.snapshot;
      whole =
          ap (λ t. t ++ rest) (concat-append bs b)
          ∙ append_assoc (concat bs) b rest
          ∙ o.open_job.durable.whole;
      filled = All-append (λ c. 0 < length c) bs (b ∷ []) o.open_job.durable.filled (some_rows, tt);
      stored = Stored-one_more e job.id bs w.objects b o.open_job.durable.stored o.written;
    };
    row = o.open_job.row;
    found = o.open_job.found;
    terms = o.open_job.terms;
    wanted = o.open_job.wanted;
  }

  -- So does the transaction of the batch, which also writes the job's progress.
  pub record_batch-IsOpen :
      (frame : (n : ℕ) (d : Db) → Frame job d (e.others n d)) (last n exported : ℕ) (w : World e)
      → 0 < length b
      → last ≡ last_row_id 0 b
      → n ≡ length b
      → IsWritten w
      → ((record_batch job.id (suc (length bs)) last n exported w.db).0 ≡ ok tt)
        × IsOpen e job rows
            (bs ++ b ∷ [])
            rest
            (record w { db = (record_batch job.id (suc (length bs)) last n exported w.db).1 })
  record_batch-IsOpen frame last n exported w some_rows at_last of_rows o =
      let free = has_batch-next job.id bs w.db.checkpoints o.open_job.durable.logged in
      rw
        (
          at_last,
          of_rows,
          record_batch_free job.id (suc (length bs)) (last_row_id 0 b) (length b) exported w.db
              o.open_job.row free o.open_job.found,
        )
        (
          refl,
          update-IsOpen job rows frame (bs ++ b ∷ []) rest (progressed (last_row_id 0 b) exported) _
              (progresses (last_row_id 0 b) exported) (checkpoint-IsOpen w some_rows o),
        )

module _ {e : Env} (quiet : (n : ℕ) → e.fault n ≡ none) (store : IsStore e) (willing : IsWilling e)
    (no_crash : e.crash_after_rows ≡ none) (job : ExportJob) (rows : List RawRecordRow)
    (frame : (n : ℕ) (d : Db) → Frame job d (e.others n d)) (bs : List (List RawRecordRow))
    (b rest : List RawRecordRow) where
  -- Whatever is written under the next batch number, the job stays open.
  put_next-IsOpen :
      (body : List ℕ) (w : World e)
      → IsOpen e job rows bs (b ++ rest) w
      → IsOpen e job rows bs (b ++ rest) (record w {
        objects = (e.put_object (chunk_key job.id (suc (length bs))) body w.objects).1;
      })
  put_next-IsOpen body w o =
      same_tables-IsOpen job rows frame bs (b ++ rest) w _ refl refl refl
        (Stored-put_next store job.id bs w.objects body o.durable.stored) o

  arrive-IsWritten :
      (w : World e) → IsWritten job rows bs b rest w → IsWritten job rows bs b rest (arrive w)
  arrive-IsWritten w o = record {
    open_job = arrive-IsOpen job rows frame bs (b ++ rest) w o.open_job;
    written = o.written;
  }

  record_batch-Runs :
      0 < length b
      → Runs {e = e}
          (IsWritten job rows bs b rest)
          (λ _ w. IsOpen e job rows (bs ++ b ∷ []) rest w)
          (transact (
            record_batch job.id
              (suc (length bs))
              (last_row_id 0 b)
              (length (map normalise_record b))
              (length (concat bs) + length (map normalise_record b))))
  record_batch-Runs some_rows =
      Runs-transact quiet (IsWritten job rows bs b rest) arrive-IsWritten _ _ (λ w o.
        let (good, opened) =
          record_batch-IsOpen job rows bs b rest frame (last_row_id 0 b)
            (length (map normalise_record b)) (length (concat bs) + length (map normalise_record b))
            w some_rows refl (length-map normalise_record b) o in
        (tt, good, opened))

  -- A batch is written and recorded, and the loop goes on behind it.
  pub write_batch-Runs :
      0 < length b
      → Runs {e = e}
          (IsOpen e job rows bs (b ++ rest))
          (λ q w. (q ≡ progress_of (bs ++ b ∷ [])) × IsOpen e job rows (bs ++ b ∷ []) rest w)
          (write_batch job (progress_of bs) (map normalise_record b))
  unfolding write_batch
  write_batch-Runs some_rows =
      Runs-known (IsOpen e job rows bs (b ++ rest)) (last_row_id 0 b)
        (IsOpen e job rows bs (b ++ rest)) _ _ _
        (last_id_or_throw-Runs (IsOpen e job rows bs (b ++ rest)) _ (last_row_id 0 b)
          (batch_last_id-map b some_rows))
        (Runs-bind _ (λ _ w. IsWritten job rows bs b rest w) _ _ _
          (Runs-mono _ _ _ _
            (put_object_verified-Runs quiet store (IsOpen e job rows bs (b ++ rest))
              (arrive-IsOpen job rows frame bs (b ++ rest)) (chunk_key job.id (suc (length bs)))
              (chunk_bytes b) willing (put_next-IsOpen (chunk_bytes b)))
            (λ n w h. record { open_job = h.0; written = h.1 }))
          (λ _.
            Runs-bind _ (λ _ w. IsOpen e job rows (bs ++ b ∷ []) rest w) _ _ _
              (record_batch-Runs some_rows)
              (λ _.
                Runs-bind _ (λ _ w. IsOpen e job rows (bs ++ b ∷ []) rest w) _ _ _
                  (crash_point-Runs (IsOpen e job rows (bs ++ b ∷ []) rest) e.crash_after_rows _
                    no_crash)
                  (λ _. Runs-pure _ _ _ (λ w o. (progress_of-append bs b some_rows, o))))))
