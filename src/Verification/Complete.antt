-- ===== src/Verification/Complete.antt =====
-- What a scan of ascending rows finds (server/src/services/exportVerification.service.ts): nothing
-- to complain of, and as many different ids as rows.
use export_vault.Prelude.{
  ℕ, ◌+◌, ◌<◌, ◌≡◌, refl, sym, ap, subst, ◌∙◌, false, Option, none, some, List, [], ◌∷◌, arith,
  length, Bool-cases, inl, inr, All, All-mono,
}
use export_vault.Prelude.Int.{ℤ, pos, ◌≤ℤ◌}
use export_vault.Text.{Text, text_eq, text_eq_iff}
use export_vault.Text.BigInt.{big_int}
use export_vault.Csv.{csv_columns}
use export_vault.Verification.{
  Scan, id_text, has, note_text, note_id, note_value, breaks_order, data_row, scan_row, scan_rows,
}
use export_vault.Verification.Sound.{Above, Ascends, IsClean, row_index-scan_row}

-- The text spells an id at or below the last one.
abbrev pub AtMost : Option ℤ → Text → Type 0
AtMost none t = ⊥
AtMost (some p) t = (v : ℤ) × (big_int t ≡ some v) × (v ≤ℤ p)

-- A text whose id comes behind all those seen is new.
has_not :
    (previous : Option ℤ) (v : ℤ) (t : Text) (seen : List Text)
    → big_int t ≡ some v
    → Above previous v
    → All (AtMost previous) seen
    → has seen t ≡ false
unfolding has
has_not previous v t [] read above low = refl
has_not none v t (u ∷ seen) read above (low, lows) = absurd low
has_not (some p) v t (u ∷ seen) read above ((w, spelled, le), lows) =
    elim (Bool-cases (text_eq u t)) [
      | inl same ↦
          let u_is_t : u ≡ t = (text_eq_iff u t).0 same in
          let w_is_v : some w ≡ some v = sym spelled ∙ ap big_int u_is_t ∙ read in
          absurd (ground arith)
      | inr other ↦ rw other (has_not (some p) v t seen read above lows)
    ]

breaks_order_of_Above :
    (previous : Option ℤ) (v : ℤ) → Above previous v → breaks_order previous v ≡ false
unfolding breaks_order
breaks_order_of_Above none v h = refl
breaks_order_of_Above (some p) v h = ground arith

-- The state of a clean scan whose ids seen are at or below the last one.
pub record IsFresh (s : Scan) : Type 0 where
  pub clean : IsClean s
  pub started : 0 < s.row_index
  pub low : All (AtMost s.previous_id) s.seen_ids

module _ (snapshot : ℕ) (s : Scan) (row : List Text) (v : ℤ) where
  -- The scan behind a good row.
  abbrev accepted : Scan
  accepted = note_id snapshot v (record s {
    actual_rows = s.actual_rows + 1;
    row_index = s.row_index + 1;
    seen_ids = id_text row ∷ s.seen_ids;
  })

  scan_row_good :
      IsFresh s
      → length row ≡ length csv_columns
      → big_int (id_text row) ≡ some v
      → Above s.previous_id v
      → scan_row snapshot s row ≡ accepted
  unfolding scan_row data_row note_value note_text
  scan_row_good f width read above =
      ground (arith, has_not s.previous_id v (id_text row) s.seen_ids read above f.low, f.started)

  AtMost-mono : (p : Option ℤ) → Above p v → (t : Text) → AtMost p t → AtMost (some v) t
  AtMost-mono none above t low = absurd low
  AtMost-mono (some p) above t (w, spelled, le) = (w, spelled, omega arith)

  accepted-IsFresh :
      IsFresh s
      → big_int (id_text row) ≡ some v
      → v ≤ℤ pos snapshot
      → Above s.previous_id v
      → IsFresh accepted
  unfolding note_id
  accepted-IsFresh f read inside above = record {
    clean = record {
      duplicates = f.clean.duplicates;
      inside = ground (arith, f.clean.inside);
      ascending = rw (breaks_order_of_Above s.previous_id v above) f.clean.ascending;
      well_formed = f.clean.well_formed;
    };
    started = omega arith;
    low = (
      (v, read, omega arith),
      All-mono (AtMost s.previous_id) (AtMost (some v)) (AtMost-mono s.previous_id above) s.seen_ids
          f.low,
    );
  }

module _ (snapshot : ℕ) where
  header_valid-scan_row :
      (s : Scan) (row : List Text)
      → 0 < s.row_index
      → (scan_row snapshot s row).header_valid ≡ s.header_valid
  unfolding scan_row data_row note_value note_id note_text
  header_valid-scan_row s row started = ground arith

  -- The data rows do not change what was found of the header.
  pub header_valid-scan_rows :
      (s : Scan) (rows : List (List Text))
      → 0 < s.row_index
      → (scan_rows snapshot s rows).header_valid ≡ s.header_valid
  unfolding scan_rows
  header_valid-scan_rows s [] started = refl
  header_valid-scan_rows s (row ∷ rows) started =
      header_valid-scan_rows (scan_row snapshot s row) rows
        (omega (arith, row_index-scan_row snapshot s row))
      ∙ header_valid-scan_row s row started

  -- Ascending rows leave the scan clean, and each adds a new id.
  pub scan_rows-IsFresh :
      (s : Scan) (rows : List (List Text))
      → IsFresh s
      → Ascends snapshot s.previous_id rows
      → IsFresh (scan_rows snapshot s rows)
        × ((scan_rows snapshot s rows).actual_rows ≡ s.actual_rows + length rows)
        × (length (scan_rows snapshot s rows).seen_ids ≡ length s.seen_ids + length rows)
  unfolding scan_rows
  scan_rows-IsFresh s [] f a = (f, omega arith, omega arith)
  scan_rows-IsFresh s (row ∷ rows) f (v, width, read, inside, above, a) =
      let t = accepted snapshot s row v in
      let (fresh, rows_counted, ids_counted) =
        scan_rows-IsFresh t rows (accepted-IsFresh snapshot s row v f read inside above) a in
      subst
        (λ u.
          IsFresh (scan_rows snapshot u rows)
          × ((scan_rows snapshot u rows).actual_rows ≡ s.actual_rows + length (row ∷ rows))
          × (length (scan_rows snapshot u rows).seen_ids ≡ length s.seen_ids + length (row ∷ rows)))
        (sym (scan_row_good snapshot s row v f width read above))
        (
          fresh,
          unfold note_id in omega (arith, rows_counted),
          unfold note_id in omega (arith, ids_counted),
        )
