-- ===== src/Runner/Crash/Batch.antt =====
-- One batch, whatever calls of it fail (server/src/services/exportRunner.service.ts).
use export_vault.Prelude.{
  ℕ, suc, ◌+◌, ◌≤◌, ◌<◌, ◌≡◌, ◌∙◌, refl, ap, Option, none, some, List, [], ◌∷◌, ◌++◌, map, arith,
  leb, length, concat, length-map, length-append, concat-append, append_assoc,
}
use export_vault.Model.{RawRecordRow, ExportJob}
use export_vault.Result.{Result}
use export_vault.World.{Env, Db, World, transact, arrive}
use export_vault.World.Laws.{IsStore}
use export_vault.World.Survives.{
  Survives, Leaves-result, Survives-pure, Survives-exit, Survives-mono, Survives-if, Survives-bind,
  Survives-known, Survives-transact,
}
use export_vault.Storage.{chunk_key, put_object_verified}
use export_vault.Storage.Survives.{put_object_verified-Survives}
use export_vault.Records.{normalise_record}
use export_vault.Records.Ascending.{last_row_id}
use export_vault.Runner.Loop.{
  last_id_or_throw, crash_point, record_batch, batch_payload, write_batch,
}
use export_vault.Runner.Durable.{IsOpen, Frame, progress_of, chunk_bytes}
use export_vault.Runner.Durable.Bytes.{batch_last_id-map}
use export_vault.Runner.Durable.Chunks.{Stored-put_next}
use export_vault.Runner.Exact.Open.{same_tables-IsOpen, arrive-IsOpen}
use export_vault.Runner.Exact.Batch.{IsWritten, record_batch-IsOpen, progress_of-append}
use export_vault.Runner.Crash.{Kept}

module _ {e : Env} (I P : World e → Type 0) (fails : (w : World e) → P w → I w) where
  last_id_or_throw-Survives :
      (o : Option ℕ) (n : ℕ)
      → o ≡ some n
      → Survives {e = e} P I (λ a w. (a ≡ n) × P w) (last_id_or_throw o)
  unfolding last_id_or_throw
  last_id_or_throw-Survives o n same = rw same (Survives-pure I P _ n (λ w p. (refl, p)))

  crash_point-Survives :
      (o : Option ℕ) (n : ℕ) → Survives {e = e} P I (λ _ w. P w) (crash_point o n)
  unfolding crash_point
  crash_point-Survives none n = Survives-pure I P _ tt (λ w p. p)
  crash_point-Survives (some limit) n =
      Survives-if I P (λ _ w. P w) (leb limit n) _ _ (λ _. Survives-exit I P _ fails)
        (λ _. Survives-pure I P _ tt (λ w p. p))

module _ {e : Env} (store : IsStore e) (job : ExportJob) (rows : List RawRecordRow)
    (frame : (n : ℕ) (d : Db) → Frame job d (e.others n d))
    (before : List (List RawRecordRow)) where
  pub kept :
      (bs more : List (List RawRecordRow)) (rest : List RawRecordRow)
      → bs ≡ before ++ more
      → length (concat bs) ≤ job.requested_row_limit
      → (w : World e) → IsOpen e job rows bs rest w
      → Kept e job rows before w
  kept bs more rest grown within w o = record {
    bs = bs;
    rest = rest;
    more = more;
    grown = grown;
    within = within;
    is_open = o;
  }

  module _ (bs more : List (List RawRecordRow)) (grown : bs ≡ before ++ more)
      (b rest : List RawRecordRow) (some_rows : 0 < length b)
      (within : length (concat bs) + length b ≤ job.requested_row_limit) where
    abbrev Lost : World e → Type 0
    Lost = Kept e job rows before

    abbrev Written : World e → Type 0
    Written = IsWritten job rows bs b rest

    abbrev Opened : World e → Type 0
    Opened = IsOpen e job rows bs (b ++ rest)

    abbrev Recorded : World e → Type 0
    Recorded = IsOpen e job rows (bs ++ b ∷ []) rest

    Opened-Lost : (w : World e) → Opened w → Lost w
    Opened-Lost w o = kept bs more (b ++ rest) grown (omega arith) w o

    Recorded-Lost : (w : World e) → Recorded w → Lost w
    Recorded-Lost w o =
        let longer = ap length (concat-append bs b) ∙ length-append (concat bs) b in
        kept (bs ++ b ∷ []) (more ++ b ∷ []) rest
          (ap (λ t. t ++ b ∷ []) grown ∙ append_assoc before more (b ∷ []))
          (omega (arith, longer, within)) w o

    arrive-Written : (w : World e) → Written w → Written (arrive w)
    arrive-Written w o = record {
      open_job = arrive-IsOpen job rows frame bs (b ++ rest) w o.open_job;
      written = o.written;
    }

    put-Survives :
        Survives {e = e} Opened Lost
          (λ _ w. Written w)
          (put_object_verified
            (chunk_key job.id (suc (length bs)))
            (batch_payload (map normalise_record b)))
    put-Survives =
        Survives-mono Lost Opened _ _ _
          (put_object_verified-Survives store Lost Opened
            (arrive-IsOpen job rows frame bs (b ++ rest)) Opened-Lost
            (chunk_key job.id (suc (length bs))) (chunk_bytes b)
            (λ w o.
              same_tables-IsOpen job rows frame bs (b ++ rest) w _ refl refl refl
                (Stored-put_next store job.id bs w.objects (chunk_bytes b) o.durable.stored) o))
          (λ n w h. record { open_job = h.0; written = h.1 })

    abbrev recording : Db → Result (Unit {0}) × Db
    recording =
        record_batch job.id (suc (length bs)) (last_row_id 0 b) (length (map normalise_record b))
          (length (concat bs) + length (map normalise_record b))

    record_batch-Survives : Survives {e = e} Written Lost (λ _ w. Recorded w) (transact recording)
    record_batch-Survives =
        Survives-transact Lost Written arrive-Written (λ w h. Opened-Lost w h.open_job)
          (λ _ w. Recorded w) recording (λ a w h. Recorded-Lost w h)
          (λ w o.
            let (good, opened) =
              record_batch-IsOpen job rows bs b rest frame (last_row_id 0 b)
                (length (map normalise_record b))
                (length (concat bs) + length (map normalise_record b)) w some_rows refl
                (length-map normalise_record b) o in
            Leaves-result Lost (λ _ v. Recorded v) (recording w.db).0 _ (Recorded-Lost _ opened)
              (λ a _. opened))

    -- A batch is recorded, or what was durable before it still is.
    pub write_batch-Survives :
        Survives {e = e} Opened Lost
          (λ q w. (q ≡ progress_of (bs ++ b ∷ [])) × Recorded w)
          (write_batch job (progress_of bs) (map normalise_record b))
    unfolding write_batch
    write_batch-Survives =
        Survives-known Lost Opened (last_row_id 0 b) Opened _ _ _
          (last_id_or_throw-Survives Lost Opened Opened-Lost _ (last_row_id 0 b)
            (batch_last_id-map b some_rows))
          (Survives-bind Lost Opened (λ _ w. Written w) _ _ _ put-Survives
            (λ _.
              Survives-bind Lost Written (λ _ w. Recorded w) _ _ _ record_batch-Survives
                (λ _.
                  Survives-bind Lost Recorded (λ _ w. Recorded w) _ _ _
                    (crash_point-Survives Lost Recorded Recorded-Lost e.crash_after_rows _)
                    (λ _.
                      Survives-pure Lost Recorded _ _
                        (λ w o. (progress_of-append bs b some_rows, o))))))
