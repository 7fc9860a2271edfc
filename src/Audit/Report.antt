-- ===== src/Audit/Report.antt =====
-- The tests of scripts/auditLiveExport.mjs on the rows that its parser has read.
use export_vault.Prelude.{
  ℕ, Bool, true, false, not, ◌&&◌, ◌||◌, Option, none, some, List, [], ◌∷◌, ◌++◌, map, length, keep,
  ◌==◌, if◌then◌else◌,
}
use export_vault.Text.{Text, codes, text_eq, join}

-- JavaScript's numbers, as far as the script uses them: `Number(text)`, `a > b`, and the equality by
-- which a Set tells its elements apart.
pub record Numbers : Type 1 where
  pub Num : Type 0
  pub number : Text → Num
  pub gt : Num → Num → Bool
  pub same : Num → Num → Bool

pub data AuditProblem : Type 0 where
  header_mismatch not_ascending sha256_mismatch : AuditProblem
  rows_found unique_ids_found : (expected found : ℕ) → AuditProblem
  malformed_rows beyond_snapshot : ℕ → AuditProblem

abbrev pub expected_header : Text
expected_header = codes "id,external_id,name,email,category,amount,status,created_at,updated_at"

-- r.length > 1 || r[0] !== ''
unfoldable pub is_data_row : List Text → Bool
unfolding text_eq
is_data_row [] = true
is_data_row (cell ∷ []) = not (text_eq cell [])
is_data_row (cell ∷ next ∷ row) = true

-- r[0]; the parser gives no row without a cell
abbrev pub first_cell : List Text → Text
first_cell [] = []
first_cell (cell ∷ row) = cell

abbrev pub complain_if : Bool → AuditProblem → List AuditProblem
complain_if b p = if b then p ∷ [] else []

module _ (n : Numbers) where
  open n use {Num, number, gt, same}

  unfoldable pub has_number : List Num → Num → Bool
  has_number [] x = false
  has_number (y ∷ seen) x = same y x || has_number seen x

  -- The size of `new Set(ids)`, by the elements added so far.
  unfoldable pub set_size : List Num → List Num → ℕ
  unfolding has_number
  set_size seen [] = length seen
  set_size seen (x ∷ xs) = set_size (if has_number seen x then seen else x ∷ seen) xs

  unfoldable pub ascending_from : Num → List Num → Bool
  ascending_from p [] = true
  ascending_from p (x ∷ xs) = gt x p && ascending_from x xs

  -- ids.every((id, i) => i === 0 || id > ids[i - 1])
  unfoldable pub ascending : List Num → Bool
  unfolding ascending_from
  ascending [] = true
  ascending (x ∷ xs) = ascending_from x xs

  problems_of :
      (target : ℕ) (boundary : Num) (sha256 reported : Text)
      → Text
      → List (List Text)
      → List AuditProblem
  unfolding set_size ascending text_eq
  problems_of target boundary sha256 reported header rows =
      let ids = map (λ r. number (first_cell r)) rows in
      let wrong_width = length (keep (λ (r : List Text). not (length r == 9)) rows) in
      let beyond = length (keep (λ id. gt id boundary) ids) in
      complain_if (not (text_eq header expected_header)) header_mismatch
      ++ (complain_if (not (length rows == target)) (rows_found target (length rows))
          ++ (complain_if (not (set_size [] ids == target))
                (unique_ids_found target (set_size [] ids))
              ++ (complain_if (not (wrong_width == 0)) (malformed_rows wrong_width)
                  ++ (complain_if (not (ascending ids)) not_ascending
                      ++ (complain_if (not (beyond == 0)) (beyond_snapshot beyond)
                          ++ complain_if (not (text_eq sha256 reported)) sha256_mismatch)))))

  -- The problems that end the script with exit code 1; `none` is the TypeError on a file without
  -- rows. `target` is TARGET, 50,000 in the script.
  unfoldable pub audit :
      (target : ℕ) (boundary : Num) (sha256 reported : Text)
      → List (List Text)
      → Option (List AuditProblem)
  unfolding problems_of is_data_row join
  audit target boundary sha256 reported [] = none
  audit target boundary sha256 reported (header ∷ rows) = some (
      problems_of target boundary sha256 reported (join (b',' ∷ []) header) (keep is_data_row rows))
