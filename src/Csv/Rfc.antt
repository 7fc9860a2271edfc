-- ===== src/Csv/Rfc.antt =====
-- A reader for CSV as RFC 4180 describes it, with LF as the record separator: the independent
-- description that the writer of server/src/utils/csv.ts is held against. It is strict: a quote or
-- a CR in an unquoted field, text behind a closing quote, and an open quote at the end are errors.
use export_vault.Prelude.{
  ℕ, ◌≡◌, refl, Option, none, some, List, [], ◌∷◌, ◌++◌, ◌==◌, if◌then◌else◌,
}
use export_vault.Text.{Text, codes}

pub data Mode : Type 0 where
  -- before the first character of a field, in an unquoted field, between the quotes, and behind a
  -- quote that either closes the field or begins a doubled quote
  start plain quoted closing : Mode

pub data Action : Type 0 where
  push : ℕ → Mode → Action
  skip : Mode → Action
  end_field end_row fail : Action

-- What one character does.
abbrev pub action : Mode → ℕ → Action
action start c =
    if c == b'"'
    then skip quoted
    else if c == b','
    then end_field
    else if c == 10
    then end_row
    else if c == 13
    then fail
    else push c plain
action plain c =
    if c == b'"'
    then fail
    else if c == b','
    then end_field
    else if c == 10
    then end_row
    else if c == 13
    then fail
    else push c plain
action quoted c = if c == b'"' then skip closing else push c quoted
action closing c =
    if c == b'"'
    then push b'"' quoted
    else if c == b','
    then end_field
    else if c == 10
    then end_row
    else fail

-- The reader with the rows, the fields of the open row and the characters of the open field read
-- so far. A text ends in a record separator, or is empty.
unfoldable mutual
  pub read_from : Mode → List (List Text) → List Text → Text → Text → Option (List (List Text))
  read_from start rows [] [] [] = some rows
  read_from m rows fields field [] = none
  read_from m rows fields field (c ∷ s) = elim (action m c) [
    | push d m' ↦ read_from m' rows fields (field ++ d ∷ []) s
    | skip m' ↦ read_from m' rows fields field s
    | end_field ↦ read_from start rows (fields ++ field ∷ []) [] s
    | end_row ↦ read_from start (rows ++ (fields ++ field ∷ []) ∷ []) [] [] s
    | fail ↦ none
  ]

unfoldable pub read : Text → Option (List (List Text))
unfolding read_from
read s = read_from start [] [] [] s

read_tests :
    (read (codes "a,\"b\"\"\nc\",\n") ≡ some ((codes "a" ∷ codes "b\"\nc" ∷ [] ∷ []) ∷ []))
    × (read (codes "a") ≡ none)
    × (read (codes "a\"b\n") ≡ none)
unfolding read
read_tests = (refl, refl, refl)
