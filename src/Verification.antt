-- ===== src/Verification.antt =====
-- server/src/services/exportVerification.service.ts: the audit of a finished file. The rows come
-- from the package csv-parse, which is a parameter where the file is read (Runner); here they are a
-- list of rows of cells, the header first.

pub mod Sound
pub mod Complete
pub mod Verdict
use export_vault.Prelude.{
  ℕ, suc, ◌+◌, Bool, true, false, not, ◌&&◌, ◌||◌, Option, none, some, List, [], ◌∷◌, ◌++◌, ltb,
  leb, ◌==◌, if◌then◌else◌, length,
}
use export_vault.Prelude.Int.{ℤ, pos, ltb_ℤ, leb_ℤ}
use export_vault.Text.{Text, text_eq}
use export_vault.Text.BigInt.{big_int}
use export_vault.Csv.{CsvColumn, column_name, csv_columns}
use export_vault.Model.Errors.{
  Problem, bad_header, wrong_row_count, wrong_unique_count, duplicate_ids, beyond_snapshot,
  not_ascending, malformed, empty_file,
}

-- The variables of the loop over the rows. `seen_ids` is a Set: no text stands in it twice.
pub record Scan : Type 0 where
  pub seen_ids : List Text
  pub actual_rows : ℕ
  pub duplicates : ℕ
  pub out_of_snapshot : ℕ
  pub header_valid : Bool
  pub strictly_ascending : Bool
  pub previous_id : Option ℤ
  pub min_id : Option ℤ
  pub max_id : Option ℤ
  pub row_index : ℕ
  pub malformed_rows : ℕ

abbrev pub scan_start : Scan
scan_start = record {
  seen_ids = [];
  actual_rows = 0;
  duplicates = 0;
  out_of_snapshot = 0;
  header_valid = false;
  strictly_ascending = true;
  previous_id = none;
  min_id = none;
  max_id = none;
  row_index = 0;
  malformed_rows = 0;
}

-- CSV_COLUMNS.every((column, i) => row[i] === column); a missing cell equals no column
pub columns_match : List CsvColumn → List Text → Bool
columns_match [] row = true
columns_match (c ∷ cs) [] = false
columns_match (c ∷ cs) (cell ∷ row) = text_eq cell (column_name c) && columns_match cs row

pub header_matches : List Text → Bool
unfolding columns_match text_eq
header_matches row = length row == length csv_columns && columns_match csv_columns row

-- seenIds.has(text)
pub has : List Text → Text → Bool
has [] t = false
has (s ∷ seen) t = text_eq s t || has seen t

pub note_text : Text → Scan → Scan
unfolding has text_eq
note_text t s =
    if has s.seen_ids t
    then record s { duplicates = s.duplicates + 1 }
    else record s { seen_ids = t ∷ s.seen_ids }

-- previousId !== null && idValue <= previousId
pub breaks_order : Option ℤ → ℤ → Bool
breaks_order none v = false
breaks_order (some p) v = leb_ℤ v p

pub lower : Option ℤ → ℤ → Option ℤ
lower none v = some v
lower (some m) v = some (if ltb_ℤ v m then v else m)

pub higher : Option ℤ → ℤ → Option ℤ
higher none v = some v
higher (some m) v = some (if ltb_ℤ m v then v else m)

pub note_id : ℕ → ℤ → Scan → Scan
unfolding breaks_order lower higher
note_id snapshot v s = record s {
  out_of_snapshot = if ltb_ℤ (pos snapshot) v then s.out_of_snapshot + 1 else s.out_of_snapshot;
  strictly_ascending = if breaks_order s.previous_id v then false else s.strictly_ascending;
  previous_id = some v;
  min_id = lower s.min_id v;
  max_id = higher s.max_id v;
}

-- row[0] ?? ''
abbrev pub id_text : List Text → Text
id_text [] = []
id_text (cell ∷ row) = cell

pub note_value : ℕ → Option ℤ → Scan → Scan
unfolding note_id
note_value snapshot none s = record s { malformed_rows = s.malformed_rows + 1 }
note_value snapshot (some v) s = note_id snapshot v s

pub data_row : ℕ → List Text → Scan → Scan
unfolding note_text note_value big_int
data_row snapshot row s =
    note_value snapshot (big_int (id_text row))
      (note_text (id_text row) (record s { actual_rows = s.actual_rows + 1 }))

-- One round of the loop.
pub scan_row : ℕ → Scan → List Text → Scan
unfolding header_matches data_row
scan_row snapshot s row =
    if s.row_index == 0
    then record s { header_valid = header_matches row; row_index = s.row_index + 1 }
    else let t = record s { row_index = s.row_index + 1 } in
      if not (length row == length csv_columns)
      then record t { malformed_rows = s.malformed_rows + 1 }
      else data_row snapshot row t

pub scan_rows : ℕ → Scan → List (List Text) → Scan
unfolding scan_row
scan_rows snapshot s [] = s
scan_rows snapshot s (row ∷ rows) = scan_rows snapshot (scan_row snapshot s row) rows

pub record VerificationResult : Type 0 where
  pub expected_rows : ℕ
  pub actual_rows : ℕ
  pub unique_rows : ℕ
  pub duplicates : ℕ
  pub min_id : Option ℤ
  pub max_id : Option ℤ
  pub out_of_snapshot : ℕ
  pub header_valid : Bool
  pub strictly_ascending : Bool
  pub file_bytes : ℕ
  pub sha256 : Text
  pub passed : Bool
  -- `problems.join('; ')`, as the list itself
  pub failure_reason : Option (List Problem)

abbrev pub report_if : Bool → Problem → List Problem
report_if b p = if b then p ∷ [] else []

pub problems : (expected snapshot file_bytes : ℕ) → Scan → List Problem
problems expected snapshot file_bytes s =
    report_if (not s.header_valid) bad_header
    ++ (report_if (not (s.actual_rows == expected)) (wrong_row_count expected s.actual_rows)
        ++ (report_if (not (length s.seen_ids == expected))
              (wrong_unique_count expected (length s.seen_ids))
            ++ (report_if (not (s.duplicates == 0)) (duplicate_ids s.duplicates)
                ++ (report_if (not (s.out_of_snapshot == 0))
                      (beyond_snapshot s.out_of_snapshot snapshot)
                    ++ (report_if (not s.strictly_ascending) not_ascending
                        ++ (report_if (not (s.malformed_rows == 0)) (malformed s.malformed_rows)
                            ++ report_if (file_bytes == 0) empty_file))))))

pub is_empty : List Problem → Bool
is_empty [] = true
is_empty (p ∷ ps) = false

pub conclude : (expected snapshot file_bytes : ℕ) → Text → Scan → VerificationResult
unfolding problems is_empty
conclude expected snapshot file_bytes sha256 s =
    let found = problems expected snapshot file_bytes s in
    record {
      expected_rows = expected;
      actual_rows = s.actual_rows;
      unique_rows = length s.seen_ids;
      duplicates = s.duplicates;
      min_id = s.min_id;
      max_id = s.max_id;
      out_of_snapshot = s.out_of_snapshot;
      header_valid = s.header_valid;
      strictly_ascending = s.strictly_ascending;
      file_bytes = file_bytes;
      sha256 = sha256;
      passed = is_empty found;
      failure_reason = if is_empty found then none else some found;
    }

-- `verifyExportFile` between the reading of the file and the writing of the result.
unfoldable pub verdict :
    (expected snapshot file_bytes : ℕ) → Text → List (List Text) → VerificationResult
unfolding scan_rows conclude
verdict expected snapshot file_bytes sha256 rows =
    conclude expected snapshot file_bytes sha256 (scan_rows snapshot scan_start rows)
