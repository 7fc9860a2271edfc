-- ===== src/Audit/Passes.antt =====
-- An export that passes the server's verification passes the audit of scripts/auditLiveExport.mjs.
use export_vault.Prelude.{
  ℕ, ◌+◌, ◌^◌, ◌≤◌, ◌<◌, ◌≡◌, ◌∙◌, refl, sym, ap, subst, true, false, not, Option, none, some, List,
  [], ◌∷◌, map, arith, length, keep, ltb, ◌==◌, if◌then◌else◌, All, All-mono, drop,
}
use export_vault.Prelude.Int.{ℤ, pos, ◌≤ℤ◌}
use export_vault.Text.{Text, text_eq_iff}
use export_vault.Text.BigInt.{big_int, big_int-to_string}
use export_vault.Text.Decimal.{to_string}
use export_vault.Csv.{column_name, csv_columns}
use export_vault.Csv.Rfc.{read}
use export_vault.Verification.{verdict, id_text}
use export_vault.Verification.Sound.{Ascends, Above}
use export_vault.Verification.Verdict.{IsExport, passed_iff}
use export_vault.Audit.Parser.{parse_csv}
use export_vault.Audit.Agrees.{parse_csv-of_read}
use export_vault.Audit.Report.{
  Numbers, is_data_row, first_cell, has_number, set_size, ascending_from, ascending, audit,
}

-- Number.MAX_SAFE_INTEGER + 1
abbrev pub safe : ℕ
safe = 2 ^ 53

-- Number of a text that BigInt reads as a safe number is that number.
pub record IsExact (n : Numbers) : Type 0 where
  pub gt-number :
      (s t : Text) (v w : ℕ)
      → big_int s ≡ some (pos v)
      → big_int t ≡ some (pos w)
      → v < safe
      → w < safe
      → n.gt (n.number s) (n.number t) ≡ ltb w v
  pub same-number :
      (s t : Text) (v w : ℕ)
      → big_int s ≡ some (pos v)
      → big_int t ≡ some (pos w)
      → v < safe
      → w < safe
      → n.same (n.number s) (n.number t) ≡ (v == w)

-- The id of the row is a natural number.
abbrev pub HasNatural : List Text → Type 0
HasNatural row = (v : ℕ) × (big_int (id_text row) ≡ some (pos v))

abbrev Behind : Option ℕ → ℕ → Type 0
Behind none v = Unit
Behind (some p) v = p < v

abbrev Rises : ℕ → Option ℕ → List (List Text) → Type 0
Rises snapshot p [] = Unit
Rises snapshot p (row ∷ rows) =
    (v : ℕ) × (length row ≡ 9)
    × (big_int (first_cell row) ≡ some (pos v))
    × (v ≤ snapshot)
    × Behind p v
    × Rises snapshot (some v) rows

abbrev as_pos : Option ℕ → Option ℤ
as_pos none = none
as_pos (some p) = some (pos p)

pos_of : (v : ℤ) (w : ℕ) (t : Text) → big_int t ≡ some v → big_int t ≡ some (pos w) → v ≡ pos w
pos_of v w t h g = let e : some v ≡ some (pos w) = sym h ∙ g in cc

Behind-of_Above : (p : Option ℕ) (w : ℕ) → Above (as_pos p) (pos w) → Behind p w
Behind-of_Above none w h = tt
Behind-of_Above (some p) w h = omega arith

first_cell-eq-id_text : (row : List Text) → first_cell row ≡ id_text row
first_cell-eq-id_text [] = refl
first_cell-eq-id_text (c ∷ row) = refl

Rises-of_Ascends :
    (snapshot : ℕ) (p : Option ℕ) (rows : List (List Text))
    → Ascends snapshot (as_pos p) rows
    → All HasNatural rows
    → Rises snapshot p rows
Rises-of_Ascends snapshot p [] a h = tt
Rises-of_Ascends snapshot p (row ∷ rows) (v, width, spelled, inside, above, a) ((w, natural), h) =
    let e : v ≡ pos w = pos_of v w (id_text row) spelled natural in
    (
      w,
      width,
      rw (first_cell-eq-id_text row) natural,
      subst (λ u. u ≤ℤ pos snapshot → w ≤ snapshot) (sym e) (λ le. omega arith) inside,
      Behind-of_Above p w (subst (Above (as_pos p)) e above),
      Rises-of_Ascends snapshot (some w) rows (subst (λ u. Ascends snapshot (some u) rows) e a) h,
    )

keep-is_data_row :
    (snapshot : ℕ) (p : Option ℕ) (rows : List (List Text))
    → Rises snapshot p rows
    → keep is_data_row rows ≡ rows
unfolding is_data_row
keep-is_data_row snapshot p [] h = refl
keep-is_data_row snapshot p ([] ∷ rows) (v, width, _, _, _, h) = absurd (omega arith)
keep-is_data_row snapshot p ((c ∷ []) ∷ rows) (v, width, _, _, _, h) = absurd (omega arith)
keep-is_data_row snapshot p ((c ∷ d ∷ row) ∷ rows) (v, _, _, _, _, h) =
    ap (◌∷◌ (c ∷ d ∷ row)) (keep-is_data_row snapshot (some v) rows h)

keep_wrong_width :
    (snapshot : ℕ) (p : Option ℕ) (rows : List (List Text))
    → Rises snapshot p rows
    → keep (λ (r : List Text). not (length r == 9)) rows ≡ []
keep_wrong_width snapshot p [] h = refl
keep_wrong_width snapshot p (row ∷ rows) (v, width, _, _, _, h) =
    ground (arith, keep_wrong_width snapshot (some v) rows h)

module _ (n : Numbers) (exact : IsExact n) (snapshot : ℕ) (small : snapshot < safe) where
  open n use {Num, number, gt, same}

  abbrev ids_of : List (List Text) → List Num
  ids_of rows = map (λ r. number (first_cell r)) rows

  ascending_from-ids_of :
      (t : Text) (p : ℕ) (rows : List (List Text))
      → big_int t ≡ some (pos p)
      → p ≤ snapshot
      → Rises snapshot (some p) rows
      → ascending_from n (number t) (ids_of rows) ≡ true
  unfolding ascending_from
  ascending_from-ids_of t p [] spelled le h = refl
  ascending_from-ids_of t p (row ∷ rows) spelled le (v, _, read, inside, behind, h) = ground (
    arith,
    exact.gt-number (first_cell row) t v p read spelled,
    ascending_from-ids_of (first_cell row) v rows read inside h,
  )

  beyond_none :
      (p : Option ℕ) (rows : List (List Text))
      → Rises snapshot p rows
      → keep (λ id. gt id (number (to_string snapshot))) (ids_of rows) ≡ []
  beyond_none p [] h = refl
  beyond_none p (row ∷ rows) (v, _, spelled, inside, behind, h) = ground (
    arith,
    exact.gt-number (first_cell row) (to_string snapshot) v snapshot spelled
        (big_int-to_string snapshot),
    beyond_none (some v) rows h,
  )

  -- A number in the set: that of a text which spells an id at or below `p`.
  abbrev Seen : Option ℕ → Num → Type 0
  Seen none x = ⊥
  Seen (some p) x =
      (t : Text) × (v : ℕ) × (x ≡ number t) × (big_int t ≡ some (pos v)) × (v ≤ p) × (v < safe)

  Seen-mono : (p : Option ℕ) (v : ℕ) → Behind p v → (x : Num) → Seen p x → Seen (some v) x
  Seen-mono none v behind x seen = absurd seen
  Seen-mono (some p) v behind x (t, u, of, spelled, le, lt) = (t, u, of, spelled, omega arith, lt)

  has_number_new :
      (p : Option ℕ) (t : Text) (v : ℕ) (seen : List Num)
      → big_int t ≡ some (pos v)
      → v < safe
      → Behind p v
      → All (Seen p) seen
      → has_number n seen (number t) ≡ false
  unfolding has_number
  has_number_new p t v [] spelled lt behind low = refl
  has_number_new none t v (x ∷ seen) spelled lt behind (low, lows) = absurd low
  has_number_new (some p) t v (x ∷ seen) spelled lt behind ((u, w, of, read, le, small_w), lows) =
      rw of (
        ground (
          arith,
          exact.same-number u t w v read spelled,
          has_number_new (some p) t v seen spelled lt behind lows,
        ))

  set_size-ids_of :
      (p : Option ℕ) (seen : List Num) (rows : List (List Text))
      → All (Seen p) seen
      → Rises snapshot p rows
      → set_size n seen (ids_of rows) ≡ length seen + length rows
  unfolding set_size
  set_size-ids_of p seen [] low h = omega arith
  set_size-ids_of p seen (row ∷ rows) low (v, _, spelled, inside, behind, h) =
      let t = first_cell row in
      let lt : v < safe = omega arith in
      let here : Seen (some v) (number t) = (t, v, refl, spelled, omega arith, lt) in
      ap (λ b. set_size n (if b then seen else number t ∷ seen) (ids_of rows))
        (has_number_new p t v seen spelled lt behind low)
      ∙ set_size-ids_of (some v) (number t ∷ seen) rows
          (here, All-mono (Seen p) (Seen (some v)) (Seen-mono p v behind) seen low) h
      ∙ omega arith

  ascending-ids_of :
      (rows : List (List Text)) → Rises snapshot none rows → ascending n (ids_of rows) ≡ true
  unfolding ascending
  ascending-ids_of [] h = refl
  ascending-ids_of (row ∷ rows) (v, _, spelled, inside, _, h) =
      ascending_from-ids_of (first_cell row) v rows spelled inside h

  audit_of_rows :
      (target : ℕ) (sha256 : Text) (rows : List (List Text))
      → length rows ≡ target
      → Rises snapshot none rows
      → audit n target
          (number (to_string snapshot))
          sha256
          sha256
          (map column_name csv_columns ∷ rows)
        ≡ some []
  unfolding audit
  audit_of_rows target sha256 rows counted h = rw (keep-is_data_row snapshot none rows h) (
      rw (set_size-ids_of none [] rows tt h) (
        rw (keep_wrong_width snapshot none rows h) (
          rw (ascending-ids_of rows h)
            (rw (beyond_none none rows h) (ground (arith, text_eq_iff sha256 sha256))))))

-- Let a strict reader of RFC 4180 read a file as `rows`, whose ids are natural numbers, and let these
-- rows pass the server's verification for `target` rows within a boundary that a JavaScript number
-- holds exactly. Then the audit, which reads the file with its own parser and tests it with floating
-- point numbers and a Set of them, finds no problem, if `Number` is exact on safe integers and the
-- hash that the API reports is that of the file.
pub audit_accepts :
    (n : Numbers) (target snapshot bytes : ℕ) (sha256 text : Text) (rows : List (List Text))
    → IsExact n
    → snapshot < safe
    → read text ≡ some rows
    → All HasNatural (drop 1 rows)
    → (verdict target snapshot bytes sha256 rows).passed ≡ true
    → audit n target (n.number (to_string snapshot)) sha256 sha256 (parse_csv text) ≡ some []
audit_accepts n target snapshot bytes sha256 text rows exact small reads natural passed =
    rw (parse_csv-of_read text rows reads)
      (of_export rows natural ((passed_iff target snapshot bytes sha256 rows).0 passed).1)
  where
    of_export :
        (rs : List (List Text))
        → All HasNatural (drop 1 rs)
        → IsExport target snapshot rs
        → audit n target (n.number (to_string snapshot)) sha256 sha256 rs ≡ some []
    of_export [] h x = absurd x
    of_export (header ∷ rs) h (named, counted, ascends) = rw named (
        audit_of_rows n exact snapshot small target sha256 rs counted
          (Rises-of_Ascends snapshot none rs ascends h))
