-- ===== src/Tests/Audited.antt =====
-- The audit of a downloaded export, at the file of the small installation.
use export_vault.Prelude.{
  ◌≡◌, refl, true, false, Bool, ◌&&◌, Option, none, some, List, [], ◌∷◌, ◌++◌, map, arith, take,
}
use export_vault.Prelude.Int.{ℤ, ltb_ℤ, leb_ℤ}
use export_vault.Text.{Text, codes}
use export_vault.Text.BigInt.{big_int}
use export_vault.Text.Decimal.{to_string}
use export_vault.Csv.{csv_header, serialize_csv_chunk}
use export_vault.Csv.Rfc.{read}
use export_vault.Verification.{verdict}
use export_vault.Runner.Durable.{csv_row}
use export_vault.Runner.Exact.Run.{run_export_job-exact}
use export_vault.Audit.Parser.{parse_csv}
use export_vault.Audit.Agrees.{parse_csv-of_read}
use export_vault.Audit.Report.{Numbers, audit}
use export_vault.Audit.Passes.{IsExact, audit_accepts}
use export_vault.Audit.Live.{exported_run_audited}
use export_vault.Tests.Fixture.{installation, row}
use export_vault.Tests.Laws.{installation-IsStore, installation-IsWilling, installation-IsParser}
use export_vault.Tests.Resumed.{
  crashed_job, first_batch, snapshot_rows, crashed, crashed-IsUndisturbed, snapshot_rows-IsSnapshot,
  crashed-IsRunnable, crashed-found, crashed-Durable,
}

-- Numbers without rounding; `none` is NaN.
gt_number : Option ℤ → Option ℤ → Bool
gt_number (some v) (some w) = ltb_ℤ w v
gt_number _ _ = false

same_number : Option ℤ → Option ℤ → Bool
same_number (some v) (some w) = leb_ℤ v w && leb_ℤ w v
same_number none none = true
same_number _ _ = false

abbrev whole_numbers : Numbers
whole_numbers = record { Num = Option ℤ; number = big_int; gt = gt_number; same = same_number }

whole_numbers-IsExact : IsExact whole_numbers
unfolding gt_number same_number
whole_numbers-IsExact = record {
  gt-number = λ s t v w read_s read_t _ _. rw read_s (rw read_t (ground arith));
  same-number = λ s t v w read_s read_t _ _. rw read_s (rw read_t (ground arith));
}

abbrev file_text : Text
file_text = csv_header ++ serialize_csv_chunk (map csv_row (take 3 snapshot_rows))

abbrev file_rows : List (List Text)
file_rows = (codes "id" ∷ codes "name" ∷ []) ∷ (codes "1" ∷ codes "a,b" ∷ []) ∷ []

abbrev one_row : Text
one_row =
    codes
      "id,external_id,name,email,category,amount,status,created_at,updated_at\n7,e,n,m,c,1.00,new,t,t\n"

abbrev one_row_read : List (List Text)
one_row_read = parse_csv one_row

parse_csv-of_read_example : parse_csv (codes "id,name\n1,\"a,b\"\n") ≡ file_rows
parse_csv-of_read_example =
    parse_csv-of_read (codes "id,name\n1,\"a,b\"\n") file_rows (unfold read in refl)

audit_accepts_example :
    audit whole_numbers 1 (whole_numbers.number (to_string 9)) [] [] (parse_csv one_row) ≡ some []
unfolding parse_csv big_int
audit_accepts_example =
    audit_accepts whole_numbers 1 9 80 [] one_row one_row_read whole_numbers-IsExact (omega arith)
      (unfold read in refl) ((7, refl), tt) (unfold verdict in refl)

exported_run_audited_example :
    audit whole_numbers 3 (whole_numbers.number (to_string 9)) [] [] (parse_csv file_text) ≡ some []
unfolding installation
exported_run_audited_example =
    exported_run_audited {e = installation (λ n. none)} whole_numbers crashed_job snapshot_rows
      (first_batch ∷ []) (row 7 ∷ row 9 ∷ []) (crashed (λ n. none)) [] file_text
      whole_numbers-IsExact (omega arith) (installation-IsStore (λ n. none))
      (installation-IsWilling (λ n. none)) (installation-IsParser (λ n. none)) crashed-IsUndisturbed
      snapshot_rows-IsSnapshot crashed-IsRunnable (omega arith) (crashed-Durable (λ n. none))
      (crashed-found (λ n. none))
      (run_export_job-exact {e = installation (λ n. none)} crashed_job snapshot_rows
        (first_batch ∷ []) (row 7 ∷ row 9 ∷ []) (crashed (λ n. none))
        (installation-IsStore (λ n. none)) (installation-IsWilling (λ n. none))
        (installation-IsParser (λ n. none)) crashed-IsUndisturbed snapshot_rows-IsSnapshot
        crashed-IsRunnable (omega arith) (crashed-Durable (λ n. none))
        (crashed-found (λ n. none))).1.file
      refl
