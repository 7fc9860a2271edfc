-- ===== src/Verification/Verdict.antt =====
-- When an export passes its verification
-- (`verifyExportFile` of server/src/services/exportVerification.service.ts).
use export_vault.Prelude.{
  ℕ, ◌<◌, ◌≡◌, ◌↔◌, refl, sym, ◌∙◌, true, none, List, [], ◌∷◌, map, arith, length,
}
use export_vault.Text.{Text, text_eq_iff}
use export_vault.Csv.{CsvColumn, column_name, csv_columns}
use export_vault.Verification.{
  Scan, scan_start, columns_match, header_matches, scan_row, scan_rows, problems, is_empty,
  conclude, verdict,
}
use export_vault.Verification.Sound.{Ascends, IsClean, scan_rows-Ascends}
use export_vault.Verification.Complete.{IsFresh, header_valid-scan_rows, scan_rows-IsFresh}

-- What a file has to hold: the header, and as many rows as were asked for, each with nine cells and
-- an id that BigInt reads, the ids strictly ascending and none beyond the snapshot.
abbrev pub IsExport : (expected snapshot : ℕ) → List (List Text) → Type 0
IsExport expected snapshot [] = ⊥
IsExport expected snapshot (header ∷ rows) =
    (header ≡ map column_name csv_columns) × (length rows ≡ expected) × Ascends snapshot none rows

columns_match_iff :
    (columns : List CsvColumn) (row : List Text)
    → length row ≡ length columns
    → (columns_match columns row ≡ true) ↔ (row ≡ map column_name columns)
unfolding columns_match
columns_match_iff [] [] h = ground arith
columns_match_iff [] (t ∷ row) h = absurd (omega arith)
columns_match_iff (c ∷ cs) [] h = absurd (omega arith)
columns_match_iff (c ∷ cs) (t ∷ row) h =
    ground (arith, columns_match_iff cs row, text_eq_iff t (column_name c))

header_matches_iff :
    (row : List Text) → (header_matches row ≡ true) ↔ (row ≡ map column_name csv_columns)
unfolding header_matches
header_matches_iff row = (
  λ h. (columns_match_iff csv_columns row (ground arith)).0 (ground arith),
  λ e. rw e (rw ((columns_match_iff csv_columns (map column_name csv_columns) refl).1 refl)),
)

-- No problem is listed exactly when every test passes.
pub record HasNoProblem (expected file_bytes : ℕ) (s : Scan) : Type 0 where
  pub header : s.header_valid ≡ true
  pub rows : s.actual_rows ≡ expected
  pub unique : length s.seen_ids ≡ expected
  pub clean : IsClean s
  pub bytes : 0 < file_bytes

problems_iff :
    (expected snapshot file_bytes : ℕ) (s : Scan)
    → (is_empty (problems expected snapshot file_bytes s) ≡ true)
      ↔ HasNoProblem expected file_bytes s
unfolding problems is_empty
problems_iff expected snapshot file_bytes s = (
  λ h. record {
    header = ground arith;
    rows = ground arith;
    unique = ground arith;
    clean = record {
      duplicates = ground arith;
      inside = ground arith;
      ascending = ground arith;
      well_formed = ground arith;
    };
    bytes = ground arith;
  },
  λ h. ground (arith, h.clean.duplicates, h.clean.inside, h.clean.ascending, h.clean.well_formed),
)

-- The scan when the header is read.
abbrev begun : List Text → Scan
begun header = record scan_start { header_valid = header_matches header; row_index = 1 }

begun-IsFresh : (header : List Text) → IsFresh (begun header)
begun-IsFresh header = record {
  clean = record { duplicates = refl; inside = refl; ascending = refl; well_formed = refl };
  started = omega arith;
  low = tt;
}

module _ (expected snapshot file_bytes : ℕ) where
  HasNoProblem-iff :
      (rows : List (List Text))
      → HasNoProblem expected file_bytes (scan_rows snapshot scan_start rows)
        ↔ ((0 < file_bytes) × IsExport expected snapshot rows)
  unfolding scan_rows scan_row
  HasNoProblem-iff [] = (λ h. cc (h.header), λ h. absurd h.1)
  HasNoProblem-iff (header ∷ rows) = (
    λ h.
        let (ascends, counted) =
          scan_rows-Ascends snapshot (begun header) rows (omega arith) h.clean in
        (
          h.bytes,
          (
            (header_matches_iff header).0 (
                sym (header_valid-scan_rows snapshot (begun header) rows (omega arith)) ∙ h.header),
            omega (arith, counted, h.rows),
            ascends,
          ),
        ),
    λ (bytes, is_export).
        let (named, count, ascends) = is_export in
        let (fresh, counted, unique) =
          scan_rows-IsFresh snapshot (begun header) rows (begun-IsFresh header) ascends in
        record {
          header =
              header_valid-scan_rows snapshot (begun header) rows (omega arith)
              ∙ (header_matches_iff header).1 named;
          rows = omega (arith, counted, count);
          unique = omega (arith, unique, count);
          clean = fresh.clean;
          bytes = bytes;
        },
  )

  -- The verification passes exactly when the file is not empty and its rows are an export: the
  -- header of the nine columns, then as many rows as were expected, each with nine cells and an id
  -- that BigInt reads, the ids strictly ascending and none beyond the snapshot.
  pub passed_iff :
      (sha256 : Text) (rows : List (List Text))
      → ((verdict expected snapshot file_bytes sha256 rows).passed ≡ true)
        ↔ ((0 < file_bytes) × IsExport expected snapshot rows)
  unfolding verdict conclude
  passed_iff sha256 rows =
      let (to, from) =
        problems_iff expected snapshot file_bytes (scan_rows snapshot scan_start rows) in
      let (there, back) = HasNoProblem-iff rows in (λ h. there (to h), λ h. from (back h))
