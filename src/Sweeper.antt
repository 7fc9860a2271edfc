-- ===== src/Sweeper.antt =====
-- server/src/services/stalledJobs.service.ts: the sweep that marks the jobs of dead workers.
use export_vault.Prelude.{ℕ, not, some, List, [], ◌∷◌, length, keep, if◌then◌else◌}
use export_vault.Model.{ExportJob}
use export_vault.Model.Errors.{Message, plain, worker_stalled, worker_stalled_failure}
use export_vault.Model.Errors
use export_vault.World.{Env, M, ◌>>=◌, ◌>>◌, pure, transact, query, read_clock}
use export_vault.Jobs.{update_job_where}
use export_vault.Runner.Steps.{is_stale, record_export_failure}

abbrev pub stall_message : ExportJob → Message
stall_message j = worker_stalled j.exported_row_count j.requested_row_limit j.updated_at

abbrev pub to_interrupted : Message → ℕ → ExportJob → ExportJob
to_interrupted reason now j = record j { status = Errors.interrupted; error_message = some reason }

module _ {e : Env} where
  -- The loop. `start` is the time from which the cutoff of the whole sweep is reckoned.
  unfoldable pub sweep_each : ℕ → List ExportJob → M e (Unit {0})
  sweep_each start [] = pure tt
  sweep_each start (j ∷ js) = do
    updated ← transact (
        update_job_where j.id (λ now k. is_stale e.stall_timeout_ms start k)
          (to_interrupted (stall_message j)))
    if not updated then sweep_each start js else do
      record_export_failure (some j.id) worker_stalled_failure (plain (stall_message j))
      sweep_each start js

  unfoldable pub sweep_stalled_exports : M e ℕ
  unfolding sweep_each
  sweep_stalled_exports = do
    start ← read_clock
    stalled ← query (λ d. keep (is_stale e.stall_timeout_ms start) d.jobs)
    sweep_each start stalled
    pure (length stalled)
