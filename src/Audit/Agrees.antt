-- ===== src/Audit/Agrees.antt =====
-- The lenient parser of scripts/auditLiveExport.mjs against the strict reader of RFC 4180.
use export_vault.Prelude.{◌≡◌, true, false, some, List, [], ◌∷◌, ◌++◌, arith}
use export_vault.Text.{Text}
use export_vault.Csv.Rfc.{start, plain, quoted, read_from, read}
use export_vault.Audit.Parser.{flush, parse_from, parse_csv}

mutual
  unfolding read_from parse_from flush

  start-agrees :
      (rows r : List (List Text)) (row : List Text) (s : Text)
      → read_from start rows row [] s ≡ some r
      → parse_from false rows row [] s ≡ r
  start-agrees rows r [] [] h = cc
  start-agrees rows r (f ∷ row) [] h = cc
  start-agrees rows r row (c ∷ s) h = ground (
    arith,
    quoted-agrees rows r row [] s,
    start-agrees rows r (row ++ [] ∷ []) s,
    start-agrees (rows ++ (row ++ [] ∷ []) ∷ []) r [] s,
    plain-agrees rows r row (c ∷ []) s,
  )

  plain-agrees :
      (rows r : List (List Text)) (row : List Text) (field s : Text)
      → read_from plain rows row field s ≡ some r
      → parse_from false rows row field s ≡ r
  plain-agrees rows r row field [] h = cc
  plain-agrees rows r row field (c ∷ s) h = ground (
    arith,
    start-agrees rows r (row ++ field ∷ []) s,
    start-agrees (rows ++ (row ++ field ∷ []) ∷ []) r [] s,
    plain-agrees rows r row (field ++ c ∷ []) s,
  )

  quoted-agrees :
      (rows r : List (List Text)) (row : List Text) (field s : Text)
      → read_from quoted rows row field s ≡ some r
      → parse_from true rows row field s ≡ r
  quoted-agrees rows r row field [] h = cc
  quoted-agrees rows r row field (c ∷ []) h = ground arith
  quoted-agrees rows r row field (c ∷ d ∷ s) h = ground (
    arith,
    quoted-agrees rows r row (field ++ c ∷ []) (d ∷ s),
    quoted-agrees rows r row (field ++ b'"' ∷ []) s,
    start-agrees rows r (row ++ field ∷ []) s,
    start-agrees (rows ++ (row ++ field ∷ []) ∷ []) r [] s,
  )

-- Whatever the strict reader of RFC 4180 accepts, the parser of the audit reads as the same rows.
pub parse_csv-of_read :
    (s : Text) (rows : List (List Text)) → read s ≡ some rows → parse_csv s ≡ rows
unfolding read parse_csv
parse_csv-of_read s rows h = start-agrees [] rows [] s h
