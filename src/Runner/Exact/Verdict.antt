-- ===== src/Runner/Exact/Verdict.antt =====
-- The verification of the file that a run has put together
-- (server/src/services/exportVerification.service.ts).
use export_vault.Prelude.{ℕ, ◌≤◌, ◌≡◌, refl, true, none, some, List, ◌∷◌, map, length, All}
use export_vault.Text.{Text}
use export_vault.Csv.{column_name, csv_columns}
use export_vault.Query.Order.{IsAscending}
use export_vault.Model.{RawRecordRow}
use export_vault.Result.{ok}
use export_vault.World.{Env, World, arrive, ExportVerification}
use export_vault.World.Laws.{IsStore, IsParser}
use export_vault.World.Runs.{Runs, Runs-pure, Runs-bind, Runs-known, Runs-lift, Runs-transact}
use export_vault.Storage.Runs.{get_object_stream-Runs, head_object-Runs}
use export_vault.Records.Ascending.{row_id}
use export_vault.Runner.Steps.{verify_export_file}
use export_vault.Runner.Exact.File.{
  export_file, export_file-size, cells_of, export_file_parsed, export_file_passed,
}

module _ {e : Env} (quiet : (n : ℕ) → e.fault n ≡ none) (store : IsStore e) (parser : IsParser e)
    (P : World e → Type 0) (stable : (w : World e) → P w → P (arrive w)) (key : Text)
    (rows : List RawRecordRow) where
  -- If the file of ascending rows within the boundary is there, it passes.
  pub verify_export_file-Runs :
      (id : Text) (snapshot expected : ℕ)
      → length rows ≡ expected
      → All (λ r. r.id ≤ snapshot) rows
      → IsAscending row_id rows
      → ((w : World e) → P w → e.get_object key w.objects ≡ ok (some (export_file rows)))
      → ((w : World e) (vs : List ExportVerification)
          → P w
          → P (record w { db = record w.db { verifications = vs } }))
      → Runs {e = e} P
          (λ r w. (r.passed ≡ true) × P w)
          (verify_export_file id key expected snapshot)
  unfolding verify_export_file
  verify_export_file-Runs id snapshot expected counted inside asc there keeps =
      Runs-known P (length (export_file rows)) P _ _ _
        (head_object-Runs quiet store P stable key (export_file rows) there)
        (Runs-known P (export_file rows) P _ _ _
          (get_object_stream-Runs quiet store P stable key (export_file rows) there)
          (Runs-known P (map column_name csv_columns ∷ cells_of rows) P _ _ _
            (Runs-lift P _ _ (map column_name csv_columns ∷ cells_of rows)
              (export_file_parsed rows parser) (λ w p. (refl, p)))
            (Runs-bind P (λ _ w. P w) _ _ _
              (Runs-transact quiet P stable _ _ (λ w p. (tt, refl, keeps w _ p)))
              (λ _. Runs-pure P _ _ (λ w p. (
                export_file_passed rows snapshot expected (length (export_file rows))
                    (e.sha256 (export_file rows)) (export_file-size rows) counted inside asc,
                p,
              ))))))
