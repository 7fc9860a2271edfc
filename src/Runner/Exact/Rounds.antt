-- ===== src/Runner/Exact/Rounds.antt =====
-- The loop over the batches, from wherever an earlier run stopped
-- (server/src/services/exportRunner.service.ts).
use export_vault.Prelude.{
  ℕ, zero, suc, ◌+◌, ◌≤◌, ◌<◌, ◌≡◌, ◌∙◌, sym, ap, subst, false, none, Bool-cases, inl, inr, List,
  [], ◌∷◌, ◌++◌, map, arith, ltb, length, take, drop, concat, length-append, length-take,
  take-append-drop, append_assoc, concat-append,
}
use export_vault.Model.{RawRecordRow, ExportJob}
use export_vault.World.{Env, Db, World, M, ◌>>=◌, query}
use export_vault.World.Laws.{IsStore, IsWilling}
use export_vault.World.Runs.{Runs, Runs-pure, Runs-known, Runs-query}
use export_vault.Records.{normalise_record, fetch_record_batch}
use export_vault.Records.Ascending.{last_row_id, ascending-IsCut}
use export_vault.Records.Eligible.{eligible, select_batch-next}
use export_vault.Runner.Steps.{is_cancel_requested, wants_cancel}
use export_vault.Runner.Loop.{
  LoopEnd, Progress, finished, write_batch, next_limit, on_rows, batches,
}
use export_vault.Runner.Durable.{IsOpen, IsSnapshot, Frame, progress_of}
use export_vault.Runner.Exact.Open.{arrive-IsOpen}
use export_vault.Runner.Exact.Batch.{write_batch-Runs}

on_rows-Runs :
    {e : Env} (P : World e → Type 0) (Q : LoopEnd → World e → Type 0) (b : List RawRecordRow)
    (nothing batch : M e LoopEnd)
    → 0 < length b
    → Runs {e = e} P Q batch
    → Runs {e = e} P Q (on_rows (map normalise_record b) nothing batch)
on_rows-Runs P Q [] nothing batch h r = absurd (omega arith)
on_rows-Runs P Q (x ∷ b) nothing batch h r = r

-- The query of the next batch gives the first rows of those that are left.
pub fetch_record_batch-next :
    (snapshot limit : ℕ) (table rows : List RawRecordRow) (bs : List (List RawRecordRow))
    (rest : List RawRecordRow)
    → IsSnapshot rows
    → concat bs ++ rest ≡ rows
    → eligible snapshot table ≡ rows
    → fetch_record_batch (last_row_id 0 (concat bs)) snapshot limit table
      ≡ map normalise_record (take limit rest)
unfolding fetch_record_batch
fetch_record_batch-next snapshot limit table rows bs rest s whole same =
    let cut = ascending-IsCut 0 (concat bs) rest (rw whole s.positive) (rw whole s.ascending) in
    ap (map normalise_record) (
      select_batch-next (last_row_id 0 (concat bs)) snapshot limit table (concat bs) rest
        (same ∙ sym whole) cut.low cut.high)

module _ {e : Env} (quiet : (n : ℕ) → e.fault n ≡ none) (store : IsStore e) (willing : IsWilling e)
    (no_crash : e.crash_after_rows ≡ none) (job : ExportJob) (rows : List RawRecordRow)
    (frame : (n : ℕ) (d : Db) → Frame job d (e.others n d)) where
  -- How the loop ends: by its test, with as many rows durable as were asked for.
  pub record IsDone (end : LoopEnd) (w : World e) : Type 0 where
    pub bs : List (List RawRecordRow)
    pub rest : List RawRecordRow
    pub by_test : end ≡ finished job.requested_row_limit
    pub full : length (concat bs) ≡ job.requested_row_limit
    pub is_open : IsOpen e job rows bs rest w

  module _ (bs : List (List RawRecordRow)) (rest : List RawRecordRow) where
    is_cancel_requested-Runs :
        Runs {e = e}
          (IsOpen e job rows bs rest)
          (λ c w. (c ≡ false) × IsOpen e job rows bs rest w)
          (is_cancel_requested job.id)
    unfolding is_cancel_requested wants_cancel
    is_cancel_requested-Runs =
        Runs-query quiet (IsOpen e job rows bs rest) (arrive-IsOpen job rows frame bs rest) _ _
          (λ w o. (rw o.found o.wanted, o))

    fetch-Runs :
        IsSnapshot rows
        → (limit : ℕ)
        → Runs {e = e}
            (IsOpen e job rows bs rest)
            (λ l w. (l ≡ map normalise_record (take limit rest)) × IsOpen e job rows bs rest w)
            (query (λ d.
              fetch_record_batch (last_row_id 0 (concat bs)) job.snapshot_max_id limit d.records))
    fetch-Runs s limit =
        Runs-query quiet (IsOpen e job rows bs rest) (arrive-IsOpen job rows frame bs rest) _ _
          (λ w o. (
            fetch_record_batch-next job.snapshot_max_id limit w.db.records rows bs rest s
                o.durable.whole o.durable.snapshot,
            o,
          ))

    -- The rows of a round are written, and the loop goes on behind them.
    round-Runs :
        (n : ℕ) (again : Progress → M e LoopEnd)
        → 0 < length (take n rest)
        → Runs {e = e}
            (IsOpen e job rows (bs ++ take n rest ∷ []) (drop n rest))
            IsDone
            (again (progress_of (bs ++ take n rest ∷ [])))
        → Runs {e = e}
            (IsOpen e job rows bs rest)
            IsDone
            (write_batch job (progress_of bs) (map normalise_record (take n rest)) >>= again)
    round-Runs n again some_rows next =
        subst
          (λ r.
            Runs {e = e} (IsOpen e job rows bs r) IsDone
              (write_batch job (progress_of bs) (map normalise_record (take n rest)) >>= again))
          (take-append-drop n rest)
          (Runs-known _ (progress_of (bs ++ take n rest ∷ []))
            (IsOpen e job rows (bs ++ take n rest ∷ []) (drop n rest)) _ _ _
            (write_batch-Runs quiet store willing no_crash job rows frame bs (take n rest)
              (drop n rest) some_rows)
            next)

  -- From any batches that are durable the loop exports the rows that are left up to the limit.
  pub batches-Runs :
      IsSnapshot rows
      → 0 < job.batch_size
      → job.requested_row_limit ≤ length rows
      → (fuel : ℕ) (bs : List (List RawRecordRow)) (rest : List RawRecordRow)
      → concat bs ++ rest ≡ rows
      → length (concat bs) ≤ job.requested_row_limit
      → job.requested_row_limit < fuel + length (concat bs)
      → Runs {e = e} (IsOpen e job rows bs rest) IsDone (batches fuel job (progress_of bs))
  unfolding batches
  batches-Runs s size enough zero bs rest whole within fuel_left = absurd (omega arith)
  batches-Runs s size enough (suc fuel) bs rest whole within fuel_left =
      elim (Bool-cases (ltb (length (concat bs)) job.requested_row_limit)) [
        | inl more ↦
            let n = next_limit job (progress_of bs) in
            let below : length (concat bs) < job.requested_row_limit = ground arith in
            let total = ap length (sym whole) ∙ length-append (concat bs) rest in
            let taken = length-take n rest in
            let some_rows : 0 < length (take n rest) = omega (arith, total, taken, below) in
            let joined = concat-append bs (take n rest) in
            let longer = ap length joined ∙ length-append (concat bs) (take n rest) in
            rw more (
              Runs-known _ false (IsOpen e job rows bs rest) _ _ _
                (is_cancel_requested-Runs bs rest)
                (Runs-known _ (map normalise_record (take n rest)) (IsOpen e job rows bs rest) _ _ _
                  (fetch-Runs bs rest s n)
                  (on_rows-Runs _ _ (take n rest) _ _ some_rows (
                    round-Runs bs rest n (batches fuel job) some_rows (
                      batches-Runs s size enough fuel (bs ++ take n rest ∷ []) (drop n rest)
                        (ap (λ t. t ++ drop n rest) joined
                          ∙ append_assoc (concat bs) (take n rest) (drop n rest)
                          ∙ ap (λ t. concat bs ++ t) (take-append-drop n rest)
                          ∙ whole)
                        (omega (arith, longer, taken)) (omega (arith, longer, some_rows)))))))
        | inr no_more ↦
            let full : length (concat bs) ≡ job.requested_row_limit = ground arith in
            rw no_more (
              Runs-pure _ _ _ (λ w o. record {
                bs = bs;
                rest = rest;
                by_test = ap finished full;
                full = full;
                is_open = o;
              }))
      ]
