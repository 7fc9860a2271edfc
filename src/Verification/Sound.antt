-- ===== src/Verification/Sound.antt =====
-- What a scan without complaints says of the rows that it read
-- (server/src/services/exportVerification.service.ts).
use export_vault.Prelude.{
  ℕ, ◌+◌, ◌<◌, ◌≡◌, subst, true, false, Option, none, some, List, [], ◌∷◌, arith, length,
  Option-cases, inl, inr,
}
use export_vault.Prelude.Int.{ℤ, pos, ◌≤ℤ◌, ◌<ℤ◌}
use export_vault.Text.{Text}
use export_vault.Text.BigInt.{big_int}
use export_vault.Csv.{csv_columns}
use export_vault.Verification.{
  Scan, id_text, note_text, note_id, note_value, breaks_order, data_row, scan_row, scan_rows,
}

-- `v` comes strictly behind the id before it, if there is one.
abbrev pub Above : Option ℤ → ℤ → Type 0
Above none v = Unit
Above (some p) v = p <ℤ v

-- Every row has nine cells and an id that BigInt reads, the ids strictly ascend from `previous`,
-- and none passes the snapshot.
abbrev pub Ascends : ℕ → Option ℤ → List (List Text) → Type 0
Ascends snapshot previous [] = Unit
Ascends snapshot previous (row ∷ rows) =
    (v : ℤ) × (length row ≡ length csv_columns)
    × (big_int (id_text row) ≡ some v)
    × (v ≤ℤ pos snapshot)
    × Above previous v
    × Ascends snapshot (some v) rows

-- No complaint so far, and the header is read.
pub record IsClean (s : Scan) : Type 0 where
  pub duplicates : s.duplicates ≡ 0
  pub inside : s.out_of_snapshot ≡ 0
  pub ascending : s.strictly_ascending ≡ true
  pub well_formed : s.malformed_rows ≡ 0

-- What one data row adds to a scan that stays clean.
pub record RowStep (snapshot : ℕ) (s t : Scan) (row : List Text) : Type 0 where
  pub id_value : ℤ
  pub width : length row ≡ length csv_columns
  pub read : big_int (id_text row) ≡ some id_value
  pub inside : id_value ≤ℤ pos snapshot
  pub above : Above s.previous_id id_value
  pub previous : t.previous_id ≡ some id_value
  pub counted : t.actual_rows ≡ s.actual_rows + 1

in_order : (previous : Option ℤ) (v : ℤ) → breaks_order previous v ≡ false → Above previous v
unfolding breaks_order
in_order none v h = tt
in_order (some p) v h = ground arith

module _ (snapshot : ℕ) where
  pub row_index-scan_row :
      (s : Scan) (row : List Text) → (scan_row snapshot s row).row_index ≡ s.row_index + 1
  unfolding scan_row data_row note_value note_id note_text
  row_index-scan_row s row = ground arith

  -- Complaints are never taken back.
  scan_row-IsClean : (s : Scan) (row : List Text) → IsClean (scan_row snapshot s row) → IsClean s
  unfolding scan_row data_row note_value note_id note_text
  scan_row-IsClean s row h = ground (arith, h.duplicates, h.inside, h.ascending, h.well_formed)

  -- A data row that leaves the scan clean is a good row.
  scan_row_step :
      (s : Scan) (row : List Text)
      → 0 < s.row_index
      → IsClean (scan_row snapshot s row)
      → RowStep snapshot s (scan_row snapshot s row) row
  unfolding scan_row data_row note_value note_id note_text
  scan_row_step s row started h = elim (Option-cases (big_int (id_text row))) [
    | inl unread ↦ absurd (ground (arith, h.well_formed))
    | inr (v, read) ↦ record {
      id_value = v;
      width = ground (arith, h.well_formed);
      read = read;
      inside = ground (arith, h.inside, h.well_formed);
      above = in_order s.previous_id v (ground (arith, h.ascending, h.well_formed));
      previous = ground (arith, h.well_formed);
      counted = ground (arith, h.well_formed);
    }
  ]

  scan_rows-IsClean :
      (s : Scan) (rows : List (List Text)) → IsClean (scan_rows snapshot s rows) → IsClean s
  unfolding scan_rows
  scan_rows-IsClean s [] h = h
  scan_rows-IsClean s (row ∷ rows) h =
      scan_row-IsClean s row (scan_rows-IsClean (scan_row snapshot s row) rows h)

  -- A scan that is clean at its end has read ascending rows, and has counted each of them.
  pub scan_rows-Ascends :
      (s : Scan) (rows : List (List Text))
      → 0 < s.row_index
      → IsClean (scan_rows snapshot s rows)
      → Ascends snapshot s.previous_id rows
        × ((scan_rows snapshot s rows).actual_rows ≡ s.actual_rows + length rows)
  unfolding scan_rows
  scan_rows-Ascends s [] started h = (tt, omega arith)
  scan_rows-Ascends s (row ∷ rows) started h =
      let t = scan_row snapshot s row in
      let step = scan_row_step s row started (scan_rows-IsClean t rows h) in
      let (rest, counted) = scan_rows-Ascends t rows (omega (arith, row_index-scan_row s row)) h in
      (
        (
          step.id_value,
          step.width,
          step.read,
          step.inside,
          step.above,
          subst (λ p. Ascends snapshot p rows) step.previous rest,
        ),
        omega (arith, counted, step.counted),
      )
