-- ===== src/Records/Ascending.antt =====
-- Rows in the order of their ids, cut at any place (server/src/services/recordSource.service.ts).
use export_vault.Prelude.{
  ℕ, ◌≤◌, ◌<◌, ◌≡◌, refl, List, [], ◌∷◌, ◌++◌, arith, leb, length, keep, All,
}
use export_vault.Query.Order.{IsAscending, All-order_by}
use export_vault.Model.{RawRecordRow}
use export_vault.Records.Eligible.{eligible}

abbrev pub row_id : RawRecordRow → ℕ
row_id r = r.id

-- The id of the last row, or `d` if there is none.
abbrev pub last_row_id : ℕ → List RawRecordRow → ℕ
last_row_id d [] = d
last_row_id d (r ∷ rs) = last_row_id r.id rs

pub last_row_id-append :
    (d : ℕ) (xs ys : List RawRecordRow)
    → last_row_id d (xs ++ ys) ≡ last_row_id (last_row_id d xs) ys
last_row_id-append d [] ys = refl
last_row_id-append d (x ∷ xs) ys = last_row_id-append x.id xs ys

-- What a cut of ascending rows above `d` has in front of it and behind it.
pub record IsCut (d : ℕ) (xs ys : List RawRecordRow) : Type 0 where
  pub low : All (λ r. r.id ≤ last_row_id d xs) xs
  pub high : All (λ r. last_row_id d xs < r.id) ys
  pub behind : IsAscending row_id ys
  pub base : d ≤ last_row_id d xs
  pub grows : 0 < length xs → d < last_row_id d xs

pub ascending-IsCut :
    (d : ℕ) (xs ys : List RawRecordRow)
    → All (λ r. d < r.id) (xs ++ ys)
    → IsAscending row_id (xs ++ ys)
    → IsCut d xs ys
ascending-IsCut d [] ys above asc = record {
  low = tt;
  high = above;
  behind = asc;
  base = omega arith;
  grows = λ h. absurd (omega arith);
}
ascending-IsCut d (x ∷ xs) ys (here, above) (next, asc) =
    let cut = ascending-IsCut x.id xs ys next asc in
    record {
      low = (cut.base, cut.low);
      high = cut.high;
      behind = cut.behind;
      base = omega (arith, cut.base);
      grows = λ h. omega (arith, cut.base);
    }

keep_at_most :
    (snapshot : ℕ) (table : List RawRecordRow)
    → All (λ r. r.id ≤ snapshot) (keep (λ r. leb r.id snapshot) table)
keep_at_most snapshot [] = tt
keep_at_most snapshot (x ∷ xs) = ground (arith, keep_at_most snapshot xs)

-- No row of a snapshot is beyond its boundary.
pub eligible-bounded :
    (snapshot : ℕ) (table : List RawRecordRow)
    → All (λ r. r.id ≤ snapshot) (eligible snapshot table)
eligible-bounded snapshot table =
    All-order_by row_id (λ r. r.id ≤ snapshot) _ (keep_at_most snapshot table)
