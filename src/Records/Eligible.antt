-- ===== src/Records/Eligible.antt =====
-- The rows of a snapshot, in the order of the export, and the pages of
-- server/src/services/recordSource.service.ts as pieces of that list.
use export_vault.Prelude.{
  ℕ, ◌≤◌, ◌<◌, ◌≡◌, ◌∙◌, refl, sym, ap, Bool, true, false, ◌&&◌, none, some, List, [], ◌∷◌, ◌++◌,
  arith, ltb, leb, take, keep, length, All, All-mono,
}
use export_vault.Model.{RawRecordRow}
use export_vault.Records.{
  select_batch, max_id, capture_snapshot_max_id, count_records_within_snapshot,
}
use export_vault.Query.{order_by}
use export_vault.Query.Order.{keep-order_by}

-- All rows at or below the boundary, by id: what an export of that snapshot is about.
abbrev pub eligible : ℕ → List RawRecordRow → List RawRecordRow
eligible snapshot table = order_by (λ r. r.id) (keep (λ r. leb r.id snapshot) table)

keep-keep :
    (p q : RawRecordRow → Bool) (xs : List RawRecordRow)
    → keep p (keep q xs) ≡ keep (λ r. p r && q r) xs
keep-keep p q [] = refl
keep-keep p q (x ∷ xs) = ground (arith, keep-keep p q xs)

keep_none :
    (p : RawRecordRow → Bool) (xs ys : List RawRecordRow)
    → All (λ r. p r ≡ false) xs
    → keep p (xs ++ ys) ≡ keep p ys
keep_none p [] ys h = refl
keep_none p (x ∷ xs) ys (f, h) = ground (arith, keep_none p xs ys h)

keep_every :
    (p : RawRecordRow → Bool) (xs : List RawRecordRow) → All (λ r. p r ≡ true) xs → keep p xs ≡ xs
keep_every p [] h = refl
keep_every p (x ∷ xs) (t, h) = ground (arith, keep_every p xs h)

-- If the rows of the snapshot are those at or below an id with the rows above it behind them,
-- then the page after that id is the next `limit` of the latter.
pub select_batch-next :
    (after snapshot limit : ℕ) (table done rest : List RawRecordRow)
    → eligible snapshot table ≡ done ++ rest
    → All (λ r. r.id ≤ after) done
    → All (λ r. after < r.id) rest
    → select_batch after snapshot limit table ≡ take limit rest
unfolding select_batch
select_batch-next after snapshot limit table done rest split low high = ap (take limit) (
    ap (order_by (λ r. r.id)) (sym (keep-keep (λ r. ltb after r.id) (λ r. leb r.id snapshot) table))
    ∙ sym (keep-order_by (λ r. r.id) (λ r. ltb after r.id) (keep (λ r. leb r.id snapshot) table))
    ∙ ap (keep (λ r. ltb after r.id)) split
    ∙ keep_none (λ r. ltb after r.id) done rest
        (All-mono (λ r. r.id ≤ after) (λ r. ltb after r.id ≡ false) (λ r h. ground arith) done low)
    ∙ keep_every (λ r. ltb after r.id) rest
        (All-mono (λ r. after < r.id) (λ r. ltb after r.id ≡ true) (λ r h. ground arith) rest high))

-- Rows that are inserted above the boundary leave the rows of the snapshot as they are.
pub eligible-insert :
    (snapshot : ℕ) (new table : List RawRecordRow)
    → All (λ r. snapshot < r.id) new
    → eligible snapshot (new ++ table) ≡ eligible snapshot table
eligible-insert snapshot new table above = ap (order_by (λ r. r.id)) (
    keep_none (λ r. leb r.id snapshot) new table
      (All-mono (λ r. snapshot < r.id) (λ r. leb r.id snapshot ≡ false) (λ r h. ground arith) new
        above))

module _ (table : List RawRecordRow) where
  max_id-below :
      (b : ℕ) (xs : List RawRecordRow)
      → (elim (max_id xs) as (λ _. ℕ) [ none ↦ 0 | some m ↦ m ]) ≤ b
      → All (λ r. r.id ≤ b) xs
  unfolding max_id
  max_id-below b [] h = tt
  max_id-below b (x ∷ xs) h = ground (arith, max_id-below b xs)

  -- The captured boundary is at or above the id of every row that the table holds.
  pub capture_snapshot_max_id-bounds : All (λ r. r.id ≤ capture_snapshot_max_id table) table
  unfolding capture_snapshot_max_id
  capture_snapshot_max_id-bounds = max_id-below _ table (ground arith)

  keep_captured : keep (λ r. leb r.id (capture_snapshot_max_id table)) table ≡ table
  keep_captured = keep_every _ table (
      All-mono (λ r. r.id ≤ capture_snapshot_max_id table) _ (λ r h. ground arith) table
        capture_snapshot_max_id-bounds)

  -- Whatever is inserted above the captured boundary later, the snapshot is the table as it stood
  -- when the boundary was captured, and the count at the boundary is its number of rows.
  pub captured_snapshot :
      (new : List RawRecordRow)
      → All (λ r. capture_snapshot_max_id table < r.id) new
      → (eligible (capture_snapshot_max_id table) (new ++ table) ≡ order_by (λ r. r.id) table)
        × (count_records_within_snapshot (capture_snapshot_max_id table) table ≡ length table)
  unfolding count_records_within_snapshot
  captured_snapshot new above = (
    eligible-insert (capture_snapshot_max_id table) new table above
        ∙ ap (order_by (λ r. r.id)) keep_captured,
    ap length keep_captured,
  )
