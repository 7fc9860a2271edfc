-- ===== src/Tests/Witnesses.antt =====
-- The theorems at concrete inputs that meet their hypotheses.
use export_vault.Prelude.{
  ℕ, ◌≡◌, ◌≢◌, ◌<◌, refl, true, false, none, some, List, [], ◌∷◌, ◌++◌, map, arith, take, ◌↔◌,
}
use export_vault.Prelude.Int.{negsuc}
use export_vault.Text.{Text, codes}
use export_vault.Csv.{CsvColumn, Value, csv_header, serialize_csv_chunk, csv_columns, column_name}
use export_vault.Csv.Rfc.{read}
use export_vault.Csv.RoundTrip.{read-csv_file, row_texts}
use export_vault.Model.{ExportCheckpoint, ExportJob}
use export_vault.Model.Errors
use export_vault.Model.Errors.{
  AppError, status_code, conflict_error, cannot_resume_while, cannot_cancel_while,
}
use export_vault.Result.{ok}
use export_vault.World.{query, call, lift, pure, throw, ◌>>=◌, World, thrown, returned, arrive}
use export_vault.World.Laws.{IsStore}
use export_vault.World.Keeps.{After}
use export_vault.Jobs.{find_job}
use export_vault.Query.{order_by}
use export_vault.Records.{
  normalise_record, column_value, select_batch, capture_snapshot_max_id,
  count_records_within_snapshot,
}
use export_vault.Records.Eligible.{eligible, select_batch-next, captured_snapshot}
use export_vault.Resume.{resume_state}
use export_vault.Resume.Valid.{IsLog, position_of, resume_state_iff}
use export_vault.Verification.{verdict, VerificationResult}
use export_vault.Verification.Verdict.{IsExport, passed_iff}
use export_vault.Runner.{run_export_job, enough_rounds}
use export_vault.Runner.Honest.{RowsOk, Filed, NotCompleted, CompletedOk, Respects}
use export_vault.Runner.Completion.{run_export_job-CompletedOk}
use export_vault.Runner.Loop.{batches}
use export_vault.Runner.Fuel.{IsEnd, batches-IsEnd}
use export_vault.ExportService.{
  resume_export_job, cancel_export_job, get_export_download, create_export_job, integer,
  download_owned, latest_verification, Download,
}
use export_vault.ExportService.Dashboard.{get_export_job_detail}
use export_vault.ExportService.Recheck.{verify}
use export_vault.ExportService.Access.{
  refusal, foreign_job_refused, create_export_job-rejects, IsDownloadable,
  download_owned-IsDownloadable,
}
use export_vault.ExportService.Honest.{api_keeps_RowsOk}
use export_vault.Sweeper.{sweep_stalled_exports}
use export_vault.Storage.{chunk_key, final_key, chunk_prefix}
use export_vault.Storage.Keys.{chunk_keys_apart}
use export_vault.Queue.{wake_worker}
use export_vault.Queue.Laws.{wake_worker-twice}
use export_vault.Tests.Laws.{installation-IsStore}
use export_vault.Tests.Fixture.{start_ok, quiet, start, start_db, job, table, row}

quiet-IsStore : IsStore quiet
unfolding quiet
quiet-IsStore = installation-IsStore (λ n. none)

quiet-Respects : Respects quiet job
unfolding quiet
quiet-Respects C n d h = h

start_not_completed : NotCompleted job start.db
unfolding start
start_not_completed = start_ok

run_export_job-CompletedOk_example : CompletedOk quiet job (run_export_job job.id start).1
run_export_job-CompletedOk_example =
    run_export_job-CompletedOk {e = quiet} job start quiet-IsStore quiet-Respects
      start_not_completed

-- The world behind the run, where the job is COMPLETED.
abbrev behind : World quiet
behind = (run_export_job {e = quiet} job.id start).1

batches-IsEnd_example :
    After IsEnd
      (batches {e = quiet}
        (enough_rounds job)
        job
        (record { last_exported_id = 0; exported_row_count = 0; batch_number = 1 })
        start).0
batches-IsEnd_example =
    batches-IsEnd {e = quiet} job
      (record { last_exported_id = 0; exported_row_count = 0; batch_number = 1 }) start

abbrev three_rows : List (List Text)
three_rows = map (λ r. row_texts (column_value (normalise_record r))) (row 2 ∷ row 4 ∷ row 7 ∷ [])

passed_iff_example :
    ((verdict 3 9 200 [] (map column_name csv_columns ∷ three_rows)).passed ≡ true)
    ↔ ((0 < 200) × IsExport 3 9 (map column_name csv_columns ∷ three_rows))
passed_iff_example = passed_iff 3 9 200 [] (map column_name csv_columns ∷ three_rows)

abbrev quoted_rows : List (CsvColumn → Value)
quoted_rows = map (λ r. column_value (normalise_record r)) (row 2 ∷ row 4 ∷ [])

read-csv_file_example :
    read (csv_header ++ serialize_csv_chunk quoted_rows)
    ≡ some (map column_name csv_columns ∷ map row_texts quoted_rows)
read-csv_file_example = read-csv_file quoted_rows

-- Behind the row with id 2, the next page of one row.
select_batch-next_example : select_batch 2 9 1 table ≡ take 1 (row 4 ∷ row 7 ∷ row 9 ∷ [])
unfolding order_by
select_batch-next_example =
    select_batch-next 2 9 1 table (row 2 ∷ []) (row 4 ∷ row 7 ∷ row 9 ∷ []) refl (omega arith, tt)
      (omega arith, (omega arith, (omega arith, tt)))

captured_snapshot_example :
    (eligible (capture_snapshot_max_id table) (row 14 ∷ table) ≡ order_by (λ r. r.id) table)
    × (count_records_within_snapshot (capture_snapshot_max_id table) table ≡ 5)
unfolding capture_snapshot_max_id
captured_snapshot_example = captured_snapshot table (row 14 ∷ []) (omega arith, tt)

abbrev log : List ExportCheckpoint
log =
    record { export_job_id = codes "j1"; batch_number = 1; last_record_id = 4; rows_written = 2 }
    ∷ record { export_job_id = codes "j1"; batch_number = 2; last_record_id = 7; rows_written = 1 }
    ∷ []

resume_state_iff_example :
    (resume_state log ≡ ok (position_of log))
    ↔ (IsLog 1 0 log × (position_of log ≡ position_of log))
resume_state_iff_example = resume_state_iff log (position_of log)

foreign_job_refused_example :
    (resume_export_job (codes "u") (codes "j1") start ≡ refusal (arrive start))
    × (cancel_export_job (codes "u") (codes "j1") start ≡ refusal (arrive start))
    × (get_export_download (codes "u") (codes "j1") start ≡ refusal (arrive start))
    × (get_export_job_detail (codes "u") (codes "j1") start ≡ refusal (arrive start))
    × (verify (codes "u") (codes "j1") start ≡ refusal (arrive start))
unfolding quiet start find_job
foreign_job_refused_example =
    foreign_job_refused (codes "u") (codes "j1") start refl (λ h. absurd (cc))

create_export_job-rejects_example :
    (x : AppError) × (create_export_job (codes "u1") (integer (negsuc 4)) start ≡ (thrown x, start))
    × (status_code x ≡ 400)
create_export_job-rejects_example =
    create_export_job-rejects (codes "u1") (integer (negsuc 4)) start (λ h. h)

api_keeps_RowsOk_example :
    RowsOk
      (Filed quiet job behind.objects)
      job
      (resume_export_job (codes "u1") (codes "j1") behind).1.db
    × RowsOk
        (Filed quiet job behind.objects)
        job
        (cancel_export_job (codes "u1") (codes "j1") behind).1.db
    × RowsOk (Filed quiet job behind.objects) job (sweep_stalled_exports behind).1.db
api_keeps_RowsOk_example =
    api_keeps_RowsOk quiet (Filed quiet job behind.objects) job
      (quiet-Respects (Filed quiet job behind.objects)) (codes "u1") (codes "j1") behind
      run_export_job-CompletedOk_example

chunk_keys_apart_example :
    (chunk_key (codes "j1") 1 ≡ chunk_key (codes "j1") 2 → ◌≡◌ {A = ℕ} 1 2)
    × ((rest : Text) × (chunk_key (codes "j1") 2 ≡ chunk_prefix (codes "j1") ++ rest))
    × ((rest : Text) → final_key (codes "j1") ≢ chunk_prefix (codes "j1") ++ rest)
chunk_keys_apart_example = chunk_keys_apart (codes "j1") 1 2

wake_worker-twice_example : wake_worker (wake_worker start).1 ≡ (returned tt, (wake_worker start).1)
wake_worker-twice_example = wake_worker-twice start

abbrev done_job : ExportJob
done_job = record job { status = Errors.completed; file_key = some (codes "k") }

abbrev passed_result : VerificationResult
passed_result = verdict 3 9 200 (codes "ab") (map column_name csv_columns ∷ three_rows)

unfoldable done_start : World quiet
unfolding quiet
done_start = record {
  db = record start_db {
    jobs = done_job ∷ [];
    verifications =
        record { export_job_id = codes "j1"; result = passed_result; created_at = 150 } ∷ [];
  };
  objects = [];
  queue = [];
  in_flight = false;
  wakes_sent = 0;
  calls = 0;
}

abbrev link : Download
link = record {
  url = codes "k";
  filename = codes "export-j1.csv";
  expires_in_seconds = 900;
  file_bytes = 200;
  sha256 = codes "ab";
}

download_owned-IsDownloadable_example : IsDownloadable {e = quiet} done_job done_start link
unfolding done_start quiet download_owned latest_verification verdict normalise_record query call
    lift pure throw ◌>>=◌
download_owned-IsDownloadable_example =
    download_owned-IsDownloadable {e = quiet} done_job done_start link (arrive done_start) refl
