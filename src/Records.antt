-- ===== src/Records.antt =====
-- server/src/services/recordSource.service.ts: the queries on the table `records`, and what a row
-- becomes on its way to the file. A query's WHERE is a filter on the rows, its ORDER BY a sort, and
-- its LIMIT a prefix; the table itself is in no order.

pub mod Eligible
pub mod Ascending
use export_vault.Prelude.{
  ◌+◌, ℕ, ◌/◌, ◌%◌, Bool, ◌&&◌, Option, none, some, List, [], ◌∷◌, ◌++◌, map, ltb, leb,
  if◌then◌else◌, length, take, keep,
}
use export_vault.Prelude.Int.{pos, negsuc}
use export_vault.Text.{Text, pad_start}
use export_vault.Text.Decimal.{to_string}
use export_vault.Text.Iso.{to_iso_string}
use export_vault.Query.{order_by}
use export_vault.Model.{RawRecordRow, Amount, text, hundredths}
use export_vault.Csv.{CsvColumn, Value, str}
use export_vault.Csv

pub record ExportableRow : Type 0 where
  pub id : Text
  pub external_id : Text
  pub name : Text
  pub email : Text
  pub category : Text
  pub amount : Text
  pub status : Text
  pub created_at : Text
  pub updated_at : Text

-- value ?? ''
abbrev pub or_empty : Option Text → Text
or_empty none = []
or_empty (some s) = s

abbrev two_places : ℕ → Text
two_places n = to_string (n / 100) ++ b'.' ∷ pad_start 2 b'0' (to_string (n % 100))

-- A number prints by `toFixed(2)`.
unfoldable pub format_amount : Option Amount → Text
unfolding pad_start to_string
format_amount none = []
format_amount (some (text s)) = s
format_amount (some (hundredths (pos n))) = two_places n
format_amount (some (hundredths (negsuc n))) = b'-' ∷ two_places (n + 1)

unfoldable pub format_timestamp : ℕ → Text
unfolding to_iso_string
format_timestamp value = to_iso_string value

unfoldable pub normalise_record : RawRecordRow → ExportableRow
unfolding format_amount format_timestamp to_string
normalise_record row = record {
  id = to_string row.id;
  external_id = row.external_id;
  name = row.name;
  email = row.email;
  category = or_empty row.category;
  amount = format_amount row.amount;
  status = or_empty row.status;
  created_at = format_timestamp row.created_at;
  updated_at = format_timestamp row.updated_at;
}

-- `row[column]`
abbrev pub column_value : ExportableRow → CsvColumn → Value
column_value row CsvColumn.id = str row.id
column_value row CsvColumn.external_id = str row.external_id
column_value row CsvColumn.name = str row.name
column_value row CsvColumn.email = str row.email
column_value row CsvColumn.category = str row.category
column_value row CsvColumn.amount = str row.amount
column_value row CsvColumn.status = str row.status
column_value row CsvColumn.created_at = str row.created_at
column_value row CsvColumn.updated_at = str row.updated_at

-- WHERE id > afterId AND id <= snapshotMaxId
abbrev pub in_window : ℕ → ℕ → RawRecordRow → Bool
in_window after_id snapshot_max_id r = ltb after_id r.id && leb r.id snapshot_max_id

-- The rows that the query selects.
unfoldable pub select_batch :
    (after_id snapshot_max_id limit : ℕ) → List RawRecordRow → List RawRecordRow
unfolding order_by
select_batch after_id snapshot_max_id limit table =
    take limit (order_by (λ r. r.id) (keep (in_window after_id snapshot_max_id) table))

unfoldable pub fetch_record_batch :
    (after_id snapshot_max_id limit : ℕ) → List RawRecordRow → List ExportableRow
unfolding select_batch normalise_record
fetch_record_batch after_id snapshot_max_id limit table =
    map normalise_record (select_batch after_id snapshot_max_id limit table)

-- SELECT MAX(id): NULL of an empty table
max_id : List RawRecordRow → Option ℕ
max_id [] = none
max_id (r ∷ rs) = elim (max_id rs) [
  | none ↦ some r.id
  | some m ↦ some (if leb r.id m then m else r.id)
]

unfoldable pub capture_snapshot_max_id : List RawRecordRow → ℕ
unfolding max_id
capture_snapshot_max_id table = elim (max_id table) [ none ↦ 0 | some m ↦ m ]

unfoldable pub count_records_within_snapshot : ℕ → List RawRecordRow → ℕ
count_records_within_snapshot snapshot_max_id table =
    length (keep (λ r. leb r.id snapshot_max_id) table)
