-- ===== src/Csv.antt =====
-- server/src/utils/csv.ts: the hand-written RFC 4180 writer. A record is a function from column
-- names to values, as the source reads it only by `row[column]`.
pub mod Rfc
pub mod RoundTrip
use export_vault.Prelude.{ℕ, Bool, true, false, ◌||◌, List, [], ◌∷◌, ◌++◌, map, ◌==◌, if◌then◌else◌}
use export_vault.Text.{Text, codes, join}
use export_vault.Text.Decimal.{to_string}

-- What a field may hold: `unknown` in the source. `num` is a number or a bigint that is whole and
-- not negative, and prints by `String(value)`.
pub data Value : Type 0 where
  null undefined : Value
  str : Text → Value
  num : ℕ → Value

pub data CsvColumn : Type 0 where
  id external_id name email category amount status created_at updated_at : CsvColumn

abbrev pub column_name : CsvColumn → Text
column_name id = codes "id"
column_name external_id = codes "external_id"
column_name name = codes "name"
column_name email = codes "email"
column_name category = codes "category"
column_name amount = codes "amount"
column_name status = codes "status"
column_name created_at = codes "created_at"
column_name updated_at = codes "updated_at"

abbrev pub csv_columns : List CsvColumn
csv_columns =
    id ∷ external_id ∷ name ∷ email ∷ category ∷ amount ∷ status ∷ created_at ∷ updated_at ∷ []

unfoldable pub csv_header_line : Text
unfolding join
csv_header_line = join (b',' ∷ []) (map column_name csv_columns)

-- /[",\r\n]/ on one character
abbrev pub is_special : ℕ → Bool
is_special c = c == b'"' || (c == b',' || (c == 13 || c == 10))

-- /[",\r\n]/.test(str)
unfoldable pub needs_quotes : Text → Bool
needs_quotes [] = false
needs_quotes (c ∷ s) = is_special c || needs_quotes s

-- str.replace(/"/g, '""')
unfoldable pub double_quotes : Text → Text
double_quotes [] = []
double_quotes (c ∷ s) =
    let rest = double_quotes s in if c == b'"' then b'"' ∷ b'"' ∷ rest else c ∷ rest

escape_text : Text → Text
escape_text [] = []
escape_text (c ∷ s) =
    if needs_quotes (c ∷ s) then b'"' ∷ (double_quotes (c ∷ s) ++ b'"' ∷ []) else c ∷ s

unfoldable pub escape_csv_field : Value → Text
unfolding escape_text needs_quotes double_quotes to_string
escape_csv_field null = []
escape_csv_field undefined = []
escape_csv_field (str s) = escape_text s
escape_csv_field (num n) = escape_text (to_string n)

unfoldable pub serialize_csv_row : (CsvColumn → Value) → Text
unfolding escape_csv_field join
serialize_csv_row row = join (b',' ∷ []) (map (λ column. escape_csv_field (row column)) csv_columns)

unfoldable pub serialize_csv_chunk : List (CsvColumn → Value) → Text
unfolding serialize_csv_row join
serialize_csv_chunk [] = []
serialize_csv_chunk (r ∷ rs) = join (10 ∷ []) (map serialize_csv_row (r ∷ rs)) ++ 10 ∷ []

unfoldable pub csv_header : Text
unfolding csv_header_line
csv_header = csv_header_line ++ 10 ∷ []
