-- ===== src/Audit/Live.antt =====
-- The audit of scripts/auditLiveExport.mjs on the file of a run.
use export_vault.Prelude.{
  ℕ, ◌≤◌, ◌<◌, ◌≡◌, ◌∙◌, sym, ap, subst, some, List, [], ◌∷◌, ◌++◌, map, arith, length, take,
  concat, length-take, All, All-take,
}
use export_vault.Text.{Text}
use export_vault.Text.Utf8.{utf8}
use export_vault.Text.Utf8Reader.{decode, decode-utf8}
use export_vault.Text.Decimal.{to_string}
use export_vault.Csv.{column_name, csv_columns, csv_header, serialize_csv_chunk}
use export_vault.Csv.Rfc.{read}
use export_vault.Csv.RoundTrip.{read-csv_file}
use export_vault.Model.{RawRecordRow, ExportJob}
use export_vault.Result.{ok, ok_injective}
use export_vault.Query.Order.{IsAscending}
use export_vault.Records.Ascending.{row_id, eligible-bounded}
use export_vault.World.{Env, World}
use export_vault.World.Laws.{IsStore, IsWilling, IsParser}
use export_vault.Jobs.{find_job}
use export_vault.Storage.{final_key}
use export_vault.Runner.{run_export_job}
use export_vault.Runner.Durable.{Durable, IsSnapshot, csv_row}
use export_vault.Runner.Exact.File.{export_file, cells_of, id_text-csv_row, export_file_passed}
use export_vault.Runner.Exact.Finish.{IsAscending-take}
use export_vault.Runner.Exact.Run.{IsUndisturbed, IsRunnable, run_export_job-exact}
use export_vault.Audit.Parser.{parse_csv}
use export_vault.Audit.Report.{Numbers, audit}
use export_vault.Audit.Passes.{IsExact, HasNatural, safe, audit_accepts}

cells_of-HasNatural : (rows : List RawRecordRow) → All HasNatural (cells_of rows)
cells_of-HasNatural [] = tt
cells_of-HasNatural (r ∷ rows) = ((r.id, id_text-csv_row r), cells_of-HasNatural rows)

-- The only text whose UTF-8 the file is.
text_of_file :
    (text : Text) (rows : List RawRecordRow)
    → export_file rows ≡ utf8 text
    → csv_header ++ serialize_csv_chunk (map csv_row rows) ≡ text
text_of_file text rows h =
    sym (decode-utf8 (csv_header ++ serialize_csv_chunk (map csv_row rows)))
    ∙ ap decode h
    ∙ decode-utf8 text

export_file_audited :
    (n : Numbers) (target snapshot : ℕ) (sha256 text : Text) (rows : List RawRecordRow)
    → IsExact n
    → snapshot < safe
    → length rows ≡ target
    → All (λ r. r.id ≤ snapshot) rows
    → IsAscending row_id rows
    → export_file rows ≡ utf8 text
    → audit n target (n.number (to_string snapshot)) sha256 sha256 (parse_csv text) ≡ some []
export_file_audited n target snapshot sha256 text rows exact small counted inside asc file =
    audit_accepts n target snapshot 1 sha256 text (map column_name csv_columns ∷ cells_of rows)
      exact small
      (subst (λ t. read t ≡ some (map column_name csv_columns ∷ cells_of rows))
        (text_of_file text rows file) (read-csv_file (map csv_row rows)))
      (cells_of-HasNatural rows)
      (export_file_passed rows snapshot target 1 sha256 (omega arith) counted inside asc)

-- Let the store keep and accept what it is sent, csv-parse read what RFC 4180 describes and `Number` be
-- exact on safe integers. Let a run of a job be undisturbed, begun with any batches `bs` already
-- durable, on a snapshot with the rows asked for and a boundary that a JavaScript number holds exactly,
-- and let the hash that the server reports be that of the bytes of the text that the run has put under
-- the final key. Then the
-- audit, which takes the hash of the bytes itself, finds no problem in that text: the script's own
-- parser and tests agree with what the job asked for.
pub exported_run_audited :
    {e : Env} (n : Numbers) (job : ExportJob) (rows : List RawRecordRow)
    (bs : List (List RawRecordRow)) (rest : List RawRecordRow) (w : World e) (reported text : Text)
    → IsExact n
    → job.snapshot_max_id < safe
    → IsStore e
    → IsWilling e
    → IsParser e
    → IsUndisturbed e job
    → IsSnapshot rows
    → IsRunnable job rows
    → length (concat bs) ≤ job.requested_row_limit
    → Durable e job rows bs rest w
    → find_job job.id w.db.jobs ≡ some job
    → e.get_object (final_key job.id) (run_export_job job.id w).1.objects ≡ ok (some (utf8 text))
    → e.sha256 (utf8 text) ≡ reported
    → audit n job.requested_row_limit
        (n.number (to_string job.snapshot_max_id))
        (e.sha256 (utf8 text))
        reported
        (parse_csv text)
      ≡ some []
exported_run_audited {e} n job rows bs rest w reported text exact small store willing parser u
      snapshot r within h found there same =
    let exported =
      (run_export_job-exact job rows bs rest w store willing parser u snapshot r within h
        found).1 in
    let limit = job.requested_row_limit in
    let bytes : some (export_file (take limit rows)) ≡ some (utf8 text) =
      ok_injective (sym exported.file ∙ there) in
    let inside =
      subst (λ rs. All (λ r. r.id ≤ job.snapshot_max_id) rs) h.snapshot
        (eligible-bounded job.snapshot_max_id w.db.records) in
    subst
      (λ hash.
        audit n limit (n.number (to_string job.snapshot_max_id)) hash reported (parse_csv text)
        ≡ some [])
      (sym same)
      (export_file_audited n limit job.snapshot_max_id reported text (take limit rows) exact small
        (length-take limit rows ∙ omega (arith, r.enough))
        (All-take (λ q. q.id ≤ job.snapshot_max_id) limit rows inside)
        (IsAscending-take limit rows snapshot.ascending) (cc))
