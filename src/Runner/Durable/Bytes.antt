-- ===== src/Runner/Durable/Bytes.antt =====
-- The bytes of batches, and the id of the last row of a batch
-- (server/src/services/exportRunner.service.ts).
use export_vault.Prelude.{ℕ, ◌<◌, ◌≡◌, ◌∙◌, refl, ap, some, List, [], ◌∷◌, ◌++◌, map, arith, length}
use export_vault.Text.Utf8.{utf8, utf8-append}
use export_vault.Text.Decimal.{to_string}
use export_vault.Text.BigInt.{big_int-to_string}
use export_vault.Csv.{serialize_csv_chunk}
use export_vault.Csv.RoundTrip.{serialize_csv_chunk-append}
use export_vault.Model.{RawRecordRow}
use export_vault.Records.{normalise_record, column_value}
use export_vault.Records.Ascending.{last_row_id}
use export_vault.Runner.Loop.{batch_last_id, batch_payload}
use export_vault.Runner.Durable.{csv_row, chunk_bytes}

pub id-normalise_record : (r : RawRecordRow) → (normalise_record r).id ≡ to_string r.id
unfolding normalise_record
id-normalise_record r = refl

-- `BigInt(rows[rows.length - 1].id)` is the id of the last row.
pub batch_last_id-map :
    (b : List RawRecordRow)
    → 0 < length b
    → batch_last_id (map normalise_record b) ≡ some (last_row_id 0 b)
unfolding batch_last_id
batch_last_id-map [] h = absurd (omega arith)
batch_last_id-map (r ∷ []) h =
    rw (id-normalise_record r, big_int-to_string r.id, batch_last_id) refl
batch_last_id-map (r ∷ s ∷ rs) h = batch_last_id-map (s ∷ rs) (omega arith)

map-map : (b : List RawRecordRow) → map column_value (map normalise_record b) ≡ map csv_row b
map-map [] = refl
map-map (r ∷ rs) = ap (◌∷◌ (csv_row r)) (map-map rs)

-- The bytes of a file without its header.
abbrev pub rows_bytes : List RawRecordRow → List ℕ
rows_bytes rows = utf8 (serialize_csv_chunk (map csv_row rows))

pub chunk_bytes-eq : (b : List RawRecordRow) → chunk_bytes b ≡ rows_bytes b
unfolding batch_payload
chunk_bytes-eq b = ap (λ t. utf8 (serialize_csv_chunk t)) (map-map b)

map-append : (xs ys : List RawRecordRow) → map csv_row (xs ++ ys) ≡ map csv_row xs ++ map csv_row ys
map-append [] ys = refl
map-append (x ∷ xs) ys = ap (◌∷◌ (csv_row x)) (map-append xs ys)

pub rows_bytes-append :
    (xs ys : List RawRecordRow) → rows_bytes (xs ++ ys) ≡ rows_bytes xs ++ rows_bytes ys
rows_bytes-append xs ys =
    ap (λ t. utf8 (serialize_csv_chunk t)) (map-append xs ys)
    ∙ ap utf8 (serialize_csv_chunk-append (map csv_row xs) (map csv_row ys))
    ∙ utf8-append (serialize_csv_chunk (map csv_row xs)) (serialize_csv_chunk (map csv_row ys))
