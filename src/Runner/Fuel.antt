-- ===== src/Runner/Fuel.antt =====
-- The loop over the batches ends (server/src/services/exportRunner.service.ts): each round that goes
-- on exports a row or more, so that the fuel of a run is enough.
use export_vault.Prelude.{
  ℕ, zero, suc, ◌+◌, ◌<◌, ◌≡◌, refl, false, not, Option, none, some, List, [], ◌∷◌, arith, length,
  ltb,
}
use export_vault.Model.{ExportJob}
use export_vault.Records.{ExportableRow}
use export_vault.World.{Env, Db, M, World}
use export_vault.World.Keeps.{Keeps, After, Keeps-bind, Keeps-if, Keeps-pure}
use export_vault.World.Safe.{
  Safe, Safe-transact, Safe-query, Safe-pure, Safe-throw, Safe-if, Safe-exit, Safe-bind,
}
use export_vault.Storage.Safe.{put_object_verified-Safe, delete_chunks-Safe}
use export_vault.Runner.{enough_rounds}
use export_vault.Runner.Steps.{is_cancel_requested, set_cancelled}
use export_vault.Runner.Loop.{
  LoopEnd, finished, cancelled_at, exhausted, out_of_fuel, Progress, last_id_or_throw, crash_point,
  write_batch, stop_cancelled, on_rows, batches,
}

abbrev Anything : Db → Type 0
Anything d = Unit

-- An end of the source's loop.
abbrev pub IsEnd : LoopEnd → Type 0
IsEnd (finished n) = Unit
IsEnd (cancelled_at n) = Unit
IsEnd (exhausted n after) = Unit
IsEnd out_of_fuel = ⊥

abbrev Advanced : Progress → List ExportableRow → Progress → Type 0
Advanced p rows q = q.exported_row_count ≡ p.exported_row_count + length rows

anything : (e : Env) (n : ℕ) (d : Db) → Anything d → Anything (e.others n d)
anything e n d i = tt

module _ {e : Env} where
  any_last_id : (last : Option ℕ) → Safe {e = e} Anything (last_id_or_throw last)
  unfolding last_id_or_throw
  any_last_id none = Safe-throw Anything _
  any_last_id (some n) = Safe-pure Anything n

  any_crash_point : (limit : Option ℕ) (n : ℕ) → Safe {e = e} Anything (crash_point limit n)
  unfolding crash_point
  any_crash_point none n = Safe-pure Anything tt
  any_crash_point (some limit) n =
      Safe-if Anything _ _ _ (Safe-exit Anything) (Safe-pure Anything tt)

  write_batch-advances :
      (job : ExportJob) (p : Progress) (rows : List ExportableRow)
      → Keeps {e = e} Anything (Advanced p rows) (write_batch job p rows)
  unfolding write_batch
  write_batch-advances job p rows =
      Keeps-bind Anything (λ _. Unit) _ _ _ (any_last_id _)
        (λ last _.
          Keeps-bind Anything (λ _. Unit) _ _ _ (put_object_verified-Safe Anything (anything e) _ _)
            (λ _ _.
              Keeps-bind Anything (λ _. Unit) _ _ _
                (Safe-transact Anything (anything e) _ (λ d i. tt))
                (λ _ _.
                  Keeps-bind Anything (λ _. Unit) _ _ _
                    (any_crash_point e.crash_after_rows (p.exported_row_count + length rows))
                    (λ _ _. Keeps-pure Anything _ _ refl))))

  stop_cancelled-IsEnd :
      (job : ExportJob) (p : Progress) → Keeps {e = e} Anything IsEnd (stop_cancelled job p)
  unfolding stop_cancelled set_cancelled
  stop_cancelled-IsEnd job p =
      Keeps-bind Anything (λ _. Unit) _ _ _
        (Safe-bind Anything _ _ (Safe-transact Anything (anything e) _ (λ d i. tt))
          (λ _. Safe-pure Anything tt))
        (λ _ _.
          Keeps-bind Anything (λ _. Unit) _ _ _ (delete_chunks-Safe Anything (anything e) job.id)
            (λ _ _. Keeps-pure Anything _ _ tt))

  on_rows-IsEnd :
      (rows : List ExportableRow) (nothing batch : M e LoopEnd)
      → Keeps Anything IsEnd nothing
      → (0 < length rows → Keeps Anything IsEnd batch)
      → Keeps Anything IsEnd (on_rows rows nothing batch)
  on_rows-IsEnd [] nothing batch n b = n
  on_rows-IsEnd (r ∷ rows) nothing batch n b = b (omega arith)

  batches_fuel-IsEnd :
      (fuel : ℕ) (job : ExportJob) (p : Progress)
      → job.requested_row_limit < fuel + p.exported_row_count
      → 0 < fuel
      → Keeps {e = e} Anything IsEnd (batches fuel job p)
  unfolding batches is_cancel_requested
  batches_fuel-IsEnd zero job p enough h = absurd (omega arith)
  batches_fuel-IsEnd (suc fuel) job p enough h =
      Keeps-if Anything IsEnd _ _ _ (λ _. Keeps-pure Anything IsEnd _ tt)
        (λ (on : not (ltb p.exported_row_count job.requested_row_limit) ≡ false).
          Keeps-bind Anything (λ _. Unit) IsEnd _ _ (Safe-query Anything (anything e) _)
            (λ cancel _.
              Keeps-if Anything IsEnd cancel _ _ (λ _. stop_cancelled-IsEnd job p)
                (λ _.
                  Keeps-bind Anything (λ _. Unit) IsEnd _ _ (Safe-query Anything (anything e) _)
                    (λ rows _. on_rows-IsEnd rows _ _ (Keeps-pure Anything IsEnd _ tt) (λ more.
                      Keeps-bind Anything (Advanced p rows) IsEnd _ _
                        (write_batch-advances job p rows)
                        (λ q advanced.
                          batches_fuel-IsEnd fuel job q (omega (arith, enough, advanced, more))
                            (ground arith)))))))

  -- With the fuel that a run gives it, the loop over the batches ends as the source's loop does,
  -- wherever it starts: if it returns, then because the rows are exported, the run was cancelled, or
  -- no row was left. It does not run out of fuel.
  pub batches-IsEnd :
      (job : ExportJob) (p : Progress) (w : World e)
      → After IsEnd (batches (enough_rounds job) job p w).0
  batches-IsEnd job p w =
      ((batches_fuel-IsEnd (enough_rounds job) job p (omega arith) (omega arith)).at w tt).1
