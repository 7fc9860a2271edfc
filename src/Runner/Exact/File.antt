-- ===== src/Runner/Exact/File.antt =====
-- The file of a job: the header and the rows of its snapshot, and what the verification of
-- server/src/services/exportVerification.service.ts says of it.
use export_vault.Prelude.{
  ℕ, ◌≤◌, ◌<◌, ◌≡◌, ◌∙◌, refl, ap, true, Option, none, some, List, [], ◌∷◌, ◌++◌, map, arith,
  length, length-map, All, All-mono,
}
use export_vault.Prelude.Int.{ℤ, pos, ◌<ℤ◌}
use export_vault.Text.{Text}
use export_vault.Text.Utf8.{utf8}
use export_vault.Text.BigInt.{big_int, big_int-to_string}
use export_vault.Csv.{column_name, csv_columns, csv_header, serialize_csv_chunk}
use export_vault.Csv.RoundTrip.{read-csv_file, row_texts}
use export_vault.Query.Order.{IsAscending}
use export_vault.Model.{RawRecordRow}
use export_vault.Result.{ok}
use export_vault.World.{Env}
use export_vault.World.Laws.{IsParser}
use export_vault.Records.Ascending.{row_id}
use export_vault.Verification.{verdict, id_text}
use export_vault.Verification.Sound.{Ascends, Above}
use export_vault.Verification.Verdict.{passed_iff}
use export_vault.Runner.Durable.{csv_row}
use export_vault.Runner.Durable.Bytes.{id-normalise_record}

-- The bytes of the file of these rows.
abbrev pub export_file : List RawRecordRow → List ℕ
export_file rows = utf8 (csv_header ++ serialize_csv_chunk (map csv_row rows))

-- What csv-parse gives of it.
abbrev pub cells_of : List RawRecordRow → List (List Text)
cells_of rows = map row_texts (map csv_row rows)

pub id_text-csv_row :
    (r : RawRecordRow) → big_int (id_text (row_texts (csv_row r))) ≡ some (pos r.id)
id_text-csv_row r = ap big_int (id-normalise_record r) ∙ big_int-to_string r.id

cells_of-Ascends :
    (snapshot : ℕ) (previous : Option ℤ) (rows : List RawRecordRow)
    → All (λ r. r.id ≤ snapshot) rows
    → IsAscending row_id rows
    → All (λ r. Above previous (pos r.id)) rows
    → Ascends snapshot previous (cells_of rows)
cells_of-Ascends snapshot previous [] inside asc above = tt
cells_of-Ascends snapshot previous (r ∷ rows) (le, inside) (next, asc) (here, above) = (
  pos r.id,
  refl,
  id_text-csv_row r,
  omega arith,
  here,
  cells_of-Ascends snapshot (some (pos r.id)) rows inside asc
      (All-mono (λ q. r.id < q.id) (λ q. pos r.id <ℤ pos q.id) (λ q lt. omega arith) rows next),
)

All-Above-none : (rows : List RawRecordRow) → All (λ r. Above none (pos r.id)) rows
All-Above-none [] = tt
All-Above-none (r ∷ rows) = (tt, All-Above-none rows)

cells_of_width :
    (rows : List RawRecordRow) → All (λ row. length row ≡ length csv_columns) (cells_of rows)
cells_of_width [] = tt
cells_of_width (r ∷ rows) = (refl, cells_of_width rows)

pub export_file-size : (rows : List RawRecordRow) → 0 < length (export_file rows)
unfolding utf8 csv_header
export_file-size rows = omega arith

module _ (rows : List RawRecordRow) where
  -- csv-parse reads the file as the names of the columns and the texts of the rows.
  pub export_file_parsed :
      {e : Env}
      → IsParser e
      → e.parse (export_file rows) ≡ ok (map column_name csv_columns ∷ cells_of rows)
  export_file_parsed parser =
      parser.reads (serialize_csv_chunk (map csv_row rows)) (cells_of rows)
        (read-csv_file (map csv_row rows)) (cells_of_width rows)

  -- The file of ascending rows within the boundary passes its verification.
  pub export_file_passed :
      (snapshot expected bytes : ℕ) (sha256 : Text)
      → 0 < bytes
      → length rows ≡ expected
      → All (λ r. r.id ≤ snapshot) rows
      → IsAscending row_id rows
      → (verdict expected snapshot bytes sha256
          (map column_name csv_columns ∷ cells_of rows)).passed
        ≡ true
  export_file_passed snapshot expected bytes sha256 some_bytes counted inside asc =
      (passed_iff expected snapshot bytes sha256 _).1 (
        some_bytes,
        (
          refl,
          length-map row_texts (map csv_row rows) ∙ length-map csv_row rows ∙ counted,
          cells_of-Ascends snapshot none rows inside asc (All-Above-none rows),
        ),
      )
