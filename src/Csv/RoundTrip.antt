-- ===== src/Csv/RoundTrip.antt =====
-- What the writer of server/src/utils/csv.ts writes is read back.
use export_vault.Prelude.{
  ◌≡◌, refl, ap, ◌∙◌, false, some, List, [], ◌∷◌, ◌++◌, map, append-nil, append_assoc, arith,
  Bool-cases, inl, inr,
}
use export_vault.Text.{Text, join}
use export_vault.Text.Decimal.{to_string}
use export_vault.Csv.{
  Value, null, undefined, str, num, CsvColumn, column_name, csv_columns, needs_quotes,
  double_quotes, escape_text, escape_csv_field, serialize_csv_row, serialize_csv_chunk, csv_header,
}
use export_vault.Csv.Rfc.{start, plain, quoted, closing, read_from, read}

-- The text that a value stands for in a file.
abbrev pub value_text : Value → Text
value_text null = []
value_text undefined = []
value_text (str s) = s
value_text (num n) = to_string n

module _ (rows : List (List Text)) (fields : List Text) where
  read_from-plain :
      (field s rest : Text)
      → needs_quotes s ≡ false
      → read_from plain rows fields field (s ++ rest)
        ≡ read_from plain rows fields (field ++ s) rest
  unfolding read_from needs_quotes
  read_from-plain field [] rest h = rw append-nil
  read_from-plain field (c ∷ s) rest h =
      ground (arith, read_from-plain (field ++ c ∷ []) s rest, append_assoc field (c ∷ []) s)

  read_from-quoted :
      (field s rest : Text)
      → read_from quoted rows fields field (double_quotes s ++ b'"' ∷ rest)
        ≡ read_from closing rows fields (field ++ s) rest
  unfolding read_from double_quotes
  read_from-quoted field [] rest = rw append-nil
  read_from-quoted field (c ∷ s) rest =
      ground (arith, read_from-quoted (field ++ c ∷ []) s rest, append_assoc field (c ∷ []) s)

  -- A field with a comma behind it is one more field of the open row.
  read_from-escape_text_comma :
      (s rest : Text)
      → read_from start rows fields [] (escape_text s ++ b',' ∷ rest)
        ≡ read_from start rows (fields ++ s ∷ []) [] rest
  unfolding escape_text read_from needs_quotes
  read_from-escape_text_comma [] rest = refl
  read_from-escape_text_comma (c ∷ s) rest = elim (Bool-cases (needs_quotes (c ∷ s))) [
    | inl q ↦ rw (q, append_assoc) (read_from-quoted [] (c ∷ s) (b',' ∷ rest))
    | inr p ↦ ground (arith, read_from-plain (c ∷ []) s (b',' ∷ rest))
  ]

  -- A field with a line feed behind it ends the row.
  read_from-escape_text_line :
      (s rest : Text)
      → read_from start rows fields [] (escape_text s ++ 10 ∷ rest)
        ≡ read_from start (rows ++ (fields ++ s ∷ []) ∷ []) [] [] rest
  unfolding escape_text read_from needs_quotes
  read_from-escape_text_line [] rest = refl
  read_from-escape_text_line (c ∷ s) rest = elim (Bool-cases (needs_quotes (c ∷ s))) [
    | inl q ↦ rw (q, append_assoc) (read_from-quoted [] (c ∷ s) (10 ∷ rest))
    | inr p ↦ ground (arith, read_from-plain (c ∷ []) s (10 ∷ rest))
  ]

escape_csv_field-eq-escape_text : (v : Value) → escape_csv_field v ≡ escape_text (value_text v)
unfolding escape_csv_field
escape_csv_field-eq-escape_text null = refl
escape_csv_field-eq-escape_text undefined = refl
escape_csv_field-eq-escape_text (str s) = refl
escape_csv_field-eq-escape_text (num n) = refl

module _ (rows : List (List Text)) where
  -- The fields of one row, joined by commas.
  read_from-join :
      (fields : List Text) (v : Text) (vs : List Text) (rest : Text)
      → read_from start rows fields [] (join (b',' ∷ []) (map escape_text (v ∷ vs)) ++ 10 ∷ rest)
        ≡ read_from start (rows ++ (fields ++ v ∷ vs) ∷ []) [] [] rest
  unfolding join
  read_from-join fields v [] rest = read_from-escape_text_line rows fields v rest
  read_from-join fields v (w ∷ vs) rest = rw append_assoc (
      read_from-escape_text_comma rows fields v
        (join (b',' ∷ []) (map escape_text (w ∷ vs)) ++ 10 ∷ rest)
      ∙ read_from-join (fields ++ v ∷ []) w vs rest
      ∙ ap (λ r. read_from start (rows ++ r ∷ []) [] [] rest)
          (append_assoc fields (v ∷ []) (w ∷ vs)))

-- The texts of a record's fields, in the order of the columns.
abbrev pub row_texts : (CsvColumn → Value) → List Text
row_texts row = map (λ column. value_text (row column)) csv_columns

read_from-serialize_csv_row :
    (rows : List (List Text)) (row : CsvColumn → Value) (rest : Text)
    → read_from start rows [] [] (serialize_csv_row row ++ 10 ∷ rest)
      ≡ read_from start (rows ++ row_texts row ∷ []) [] [] rest
unfolding serialize_csv_row
read_from-serialize_csv_row rows row rest =
    simp escape_csv_field-eq-escape_text (read_from-join rows [] _ _ rest)

-- A chunk is its rows, each with a line feed behind it.
pub serialize_csv_chunk-cons :
    (row : CsvColumn → Value) (rows : List (CsvColumn → Value))
    → serialize_csv_chunk (row ∷ rows) ≡ serialize_csv_row row ++ 10 ∷ serialize_csv_chunk rows
unfolding serialize_csv_chunk join
serialize_csv_chunk-cons row [] = refl
serialize_csv_chunk-cons row (r ∷ rs) = simp append_assoc

read_from-serialize_csv_chunk :
    (done : List (List Text)) (rows : List (CsvColumn → Value))
    → read_from start done [] [] (serialize_csv_chunk rows) ≡ some (done ++ map row_texts rows)
unfolding serialize_csv_chunk read_from
read_from-serialize_csv_chunk done [] = rw append-nil
read_from-serialize_csv_chunk done (r ∷ rs) = rw serialize_csv_chunk-cons (
    read_from-serialize_csv_row done r (serialize_csv_chunk rs)
    ∙ read_from-serialize_csv_chunk (done ++ row_texts r ∷ []) rs
    ∙ ap some (append_assoc done (row_texts r ∷ []) (map row_texts rs)))

-- The chunk of two lists of rows behind one another is the chunk of the first with the chunk of
-- the second behind it.
pub serialize_csv_chunk-append :
    (xs ys : List (CsvColumn → Value))
    → serialize_csv_chunk (xs ++ ys) ≡ serialize_csv_chunk xs ++ serialize_csv_chunk ys
unfolding serialize_csv_chunk
serialize_csv_chunk-append [] ys = refl
serialize_csv_chunk-append (x ∷ xs) ys =
    rw (serialize_csv_chunk-cons, serialize_csv_chunk-cons)
      (simp (serialize_csv_chunk-append xs ys, append_assoc))

csv_header-is_row :
    (rows : List (List Text)) (rest : Text)
    → read_from start rows [] [] (csv_header ++ rest)
      ≡ read_from start (rows ++ map column_name csv_columns ∷ []) [] [] rest
unfolding csv_header escape_text needs_quotes
csv_header-is_row rows rest =
    rw append_assoc (read_from-join rows [] (column_name CsvColumn.id) _ rest)

-- The header and the chunk of any rows are read back, by a reader of RFC 4180, as the names of the
-- columns and the texts of the rows' fields.
pub read-csv_file :
    (rows : List (CsvColumn → Value))
    → read (csv_header ++ serialize_csv_chunk rows)
      ≡ some (map column_name csv_columns ∷ map row_texts rows)
unfolding read
read-csv_file rows =
    csv_header-is_row [] (serialize_csv_chunk rows)
    ∙ read_from-serialize_csv_chunk (map column_name csv_columns ∷ []) rows
