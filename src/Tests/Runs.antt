-- ===== src/Tests/Runs.antt =====
-- Runs of the exporter on the small installation.
use export_vault.Prelude.{◌≡◌, refl}
use export_vault.Text.{codes}
use export_vault.World.{
  returned, read_clock, call, transact, query, on_store, read_store, lift, pure, throw, exit,
  try_catch, ◌>>=◌,
}
use export_vault.Jobs.{find_job, set_job, update_job, update_job_where}
use export_vault.Resume.{load_resume_state}
use export_vault.Records.{fetch_record_batch}
use export_vault.Csv.{serialize_csv_chunk, csv_header}
use export_vault.Text.Utf8.{utf8}
use export_vault.Storage.{
  put_object_verified, get_object_stream, head_object, upload_stream, delete_chunks, chunk_key,
  final_key,
}
use export_vault.Verification.{verdict}
use export_vault.Runner.{
  completed, run_export_job, run_found, run_claimed, after_loop, finish_run, publish, conclude_run,
  give_up, on_error,
}
use export_vault.Runner.Steps.{
  claim_job, is_cancel_requested, record_export_failure, fail_job, load_state,
  reconcile_job_progress, set_status, set_cancelled, set_file_key, set_completed, append_chunks,
  assemble_final_csv, verify_export_file,
}
use export_vault.Runner.Loop.{
  batch_last_id, batch_payload, has_batch, record_batch, write_batch, stop_cancelled, batches,
}
use export_vault.Tests.Fixture.{quiet, start}

-- Everything that a run computes with.
unfoldable pub running_code : Unit {0}
unfolding run_export_job run_found run_claimed after_loop finish_run publish conclude_run give_up
    on_error claim_job is_cancel_requested record_export_failure fail_job load_state
    reconcile_job_progress set_status set_cancelled set_file_key set_completed append_chunks
    assemble_final_csv verify_export_file batch_last_id batch_payload has_batch record_batch
    write_batch stop_cancelled batches put_object_verified get_object_stream head_object
    upload_stream delete_chunks chunk_key final_key verdict find_job set_job update_job
    update_job_where load_resume_state fetch_record_batch serialize_csv_chunk csv_header utf8 call
    transact query on_store read_store lift pure throw exit try_catch ◌>>=◌ read_clock quiet start
running_code = tt

-- The three rows with the lowest ids are exported, in two batches.
run_completes : (run_export_job {e = quiet} (codes "j1") start).0 ≡ returned (completed 3)
unfolding running_code
run_completes = refl
