-- ===== src/Runner/Crash/Rounds.antt =====
-- The loop over the batches, whatever calls of it fail
-- (server/src/services/exportRunner.service.ts).
use export_vault.Prelude.{
  ℕ, zero, suc, ◌+◌, ◌≤◌, ◌<◌, ◌≡◌, ◌∙◌, ap, subst, false, not, List, [], ◌∷◌, ◌++◌, map, arith,
  ltb, length, take, drop, concat, length-append, length-take, take-append-drop, concat-append,
  append_assoc,
}
use export_vault.Model.{RawRecordRow, ExportJob}
use export_vault.World.{Env, Db, World, M, ◌>>=◌, pure, query}
use export_vault.World.Laws.{IsStore}
use export_vault.World.Survives.{
  Survives, Survives-pure, Survives-if, Survives-known, Survives-query,
}
use export_vault.Records.{normalise_record, fetch_record_batch}
use export_vault.Records.Ascending.{last_row_id}
use export_vault.Runner.Steps.{is_cancel_requested, wants_cancel}
use export_vault.Runner.Loop.{LoopEnd, Progress, write_batch, next_limit, on_rows, batches}
use export_vault.Runner.Durable.{IsOpen, IsSnapshot, Frame, progress_of}
use export_vault.Runner.Exact.Open.{arrive-IsOpen}
use export_vault.Runner.Exact.Rounds.{fetch_record_batch-next}
use export_vault.Runner.Crash.{Kept}
use export_vault.Runner.Crash.Batch.{kept, write_batch-Survives}

module _ {e : Env} (store : IsStore e) (job : ExportJob) (rows : List RawRecordRow)
    (frame : (n : ℕ) (d : Db) → Frame job d (e.others n d))
    (before : List (List RawRecordRow)) where
  abbrev Lost : World e → Type 0
  Lost = Kept e job rows before

  module _ (bs more : List (List RawRecordRow)) (rest : List RawRecordRow)
      (grown : bs ≡ before ++ more) (within : length (concat bs) ≤ job.requested_row_limit) where
    abbrev Opened : World e → Type 0
    Opened = IsOpen e job rows bs rest

    Opened-Lost : (w : World e) → Opened w → Lost w
    Opened-Lost w o = kept store job rows frame before bs more rest grown within w o

    is_cancel_requested-Survives :
        Survives {e = e} Opened Lost (λ c w. (c ≡ false) × Opened w) (is_cancel_requested job.id)
    unfolding is_cancel_requested wants_cancel
    is_cancel_requested-Survives =
        Survives-query Lost Opened (arrive-IsOpen job rows frame bs rest) Opened-Lost _ _
          (λ c w h. Opened-Lost w h.1) (λ w o. (rw o.found o.wanted, o))

    fetch-Survives :
        IsSnapshot rows
        → (limit : ℕ)
        → Survives {e = e} Opened Lost
            (λ l w. (l ≡ map normalise_record (take limit rest)) × Opened w)
            (query (λ d.
              fetch_record_batch (last_row_id 0 (concat bs)) job.snapshot_max_id limit d.records))
    fetch-Survives s limit =
        Survives-query Lost Opened (arrive-IsOpen job rows frame bs rest) Opened-Lost _ _
          (λ l w h. Opened-Lost w h.1)
          (λ w o. (
            fetch_record_batch-next job.snapshot_max_id limit w.db.records rows bs rest s
                o.durable.whole o.durable.snapshot,
            o,
          ))

    -- The branches of a round.
    round-Survives :
        (b after : List RawRecordRow) (end : LoopEnd) (again : Progress → M e LoopEnd)
        → b ++ after ≡ rest
        → length (concat bs) + length b ≤ job.requested_row_limit
        → (0 < length b
            → Survives {e = e}
                (IsOpen e job rows (bs ++ b ∷ []) after)
                Lost
                (λ _ w. Lost w)
                (again (progress_of (bs ++ b ∷ []))))
        → Survives {e = e} Opened Lost
            (λ _ w. Lost w)
            (on_rows
              (map normalise_record b)
              (pure end)
              (write_batch job (progress_of bs) (map normalise_record b) >>= again))
    round-Survives [] after end again split fits next = Survives-pure Lost Opened _ end Opened-Lost
    round-Survives (r ∷ b) after end again split fits next =
        subst
          (λ t.
            Survives {e = e} (IsOpen e job rows bs t) Lost (λ _ w. Lost w)
              (write_batch job (progress_of bs) (map normalise_record (r ∷ b)) >>= again))
          split
          (Survives-known Lost _ (progress_of (bs ++ (r ∷ b) ∷ []))
            (IsOpen e job rows (bs ++ (r ∷ b) ∷ []) after) _ _ _
            (write_batch-Survives store job rows frame before bs more grown (r ∷ b) after
              (omega arith) fits)
            (next (omega arith)))

  -- From wherever the loop starts, and whatever fails in it, the batches it has recorded stay.
  pub batches-Survives :
      IsSnapshot rows
      → (fuel : ℕ) (bs more : List (List RawRecordRow)) (rest : List RawRecordRow)
      → bs ≡ before ++ more
      → length (concat bs) ≤ job.requested_row_limit
      → Survives {e = e}
          (IsOpen e job rows bs rest)
          Lost
          (λ _ w. Lost w)
          (batches fuel job (progress_of bs))
  unfolding batches
  batches-Survives s zero bs more rest grown within =
      Survives-pure Lost _ _ _ (Opened-Lost bs more rest grown within)
  batches-Survives s (suc fuel) bs more rest grown within =
      let n = next_limit job (progress_of bs) in
      let taken = length-take n rest in
      let joined = concat-append bs (take n rest) in
      let longer = ap length joined ∙ length-append (concat bs) (take n rest) in
      Survives-if Lost (IsOpen e job rows bs rest) (λ _ w. Lost w)
        (not (ltb (length (concat bs)) job.requested_row_limit)) _ _
        (λ _. Survives-pure Lost _ _ _ (Opened-Lost bs more rest grown within))
        (λ _.
          Survives-known Lost _ false (IsOpen e job rows bs rest) _ _ _
            (is_cancel_requested-Survives bs more rest grown within)
            (Survives-known Lost _ (map normalise_record (take n rest)) (IsOpen e job rows bs rest)
              _ _ _ (fetch-Survives bs more rest grown within s n)
              (round-Survives bs more rest grown within (take n rest) (drop n rest) _
                (batches fuel job) (take-append-drop n rest) (omega (arith, taken))
                (λ some_rows.
                  batches-Survives s fuel (bs ++ take n rest ∷ []) (more ++ take n rest ∷ [])
                    (drop n rest)
                    (ap (λ t. t ++ take n rest ∷ []) grown
                      ∙ append_assoc before more (take n rest ∷ []))
                    (omega (arith, longer, taken))))))
