-- ===== src/Runner/Exact/Assembly.antt =====
-- The final file out of the chunks (`assembleFinalCsv` of
-- server/src/services/exportRunner.service.ts).
use export_vault.Prelude.{
  ℕ, ◌+◌, ◌<◌, ◌≡◌, ◌∙◌, refl, sym, ap, false, none, some, List, [], ◌∷◌, ◌++◌, map, arith, ◌==◌,
  length, concat, append_assoc, append-nil, if◌then◌else◌,
}
use export_vault.Text.{Text}
use export_vault.Text.Utf8.{utf8, utf8-append}
use export_vault.Csv.{csv_header, serialize_csv_chunk}
use export_vault.Model.{RawRecordRow}
use export_vault.Model.Errors.{export_integrity_error, assembled_empty}
use export_vault.Result.{ok}
use export_vault.World.{Env, World, arrive, pure, throw}
use export_vault.World.Laws.{IsStore, IsWilling}
use export_vault.World.Runs.{Runs, Runs-pure, Runs-mono, Runs-bind, Runs-known}
use export_vault.Storage.{chunk_key, final_key}
use export_vault.Storage.Runs.{get_object_stream-Runs, head_object-Runs, upload_stream-Runs}
use export_vault.Runner.Steps.{append_chunks, assemble_final_csv}
use export_vault.Runner.Durable.{Stored, chunk_bytes, csv_row}
use export_vault.Runner.Durable.Bytes.{rows_bytes, rows_bytes-append, chunk_bytes-eq}
use export_vault.Runner.Exact.File.{export_file, export_file-size}

module _ {e : Env} (quiet : (n : ℕ) → e.fault n ≡ none) (store : IsStore e) (P : World e → Type 0)
    (stable : (w : World e) → P w → P (arrive w)) (id : Text) where
  append_chunks-Runs :
      (bs : List (List RawRecordRow)) (n : ℕ) (body : List ℕ)
      → ((w : World e) → P w → Stored e id n bs w.objects)
      → Runs {e = e} P
          (λ out w. (out ≡ body ++ rows_bytes (concat bs)) × P w)
          (append_chunks (length bs) n id body)
  unfolding append_chunks utf8 serialize_csv_chunk
  append_chunks-Runs [] n body stored = Runs-pure P _ body (λ w p. (sym (append-nil body), p))
  append_chunks-Runs (b ∷ bs) n body stored =
      Runs-known P (chunk_bytes b) P _ _ _
        (get_object_stream-Runs quiet store P stable (chunk_key id n) (chunk_bytes b)
          (λ w p. (stored w p).0))
        (Runs-mono P _ _ _
          (append_chunks-Runs bs (n + 1) (body ++ chunk_bytes b) (λ w p. (stored w p).1))
          (λ out w h. (
            h.0
                ∙ append_assoc body (chunk_bytes b) (rows_bytes (concat bs))
                ∙ ap (λ t. body ++ t)
                    (ap (λ t. t ++ rows_bytes (concat bs)) (chunk_bytes-eq b)
                      ∙ sym (rows_bytes-append b (concat bs))),
            h.1,
          )))

  size_check-Runs :
      (R : World e → Type 0) (Q : Text → World e → Type 0) (n : ℕ)
      → 0 < n
      → ((w : World e) → R w → Q (final_key id) w)
      → Runs {e = e} R Q (
          if n == 0
          then throw (export_integrity_error (assembled_empty id))
          else pure (final_key id))
  size_check-Runs R Q n some_bytes h =
      let some : (n == 0) ≡ false = ground arith in rw some (Runs-pure R Q _ h)

  -- The file is in the store.
  abbrev There : List (List RawRecordRow) → World e → Type 0
  There bs w = P w × (e.get_object (final_key id) w.objects ≡ ok (some (export_file (concat bs))))

  -- The file in the store is that of the rows of the batches.
  pub assemble_final_csv-Runs :
      (bs : List (List RawRecordRow))
      → IsWilling e
      → ((w : World e) → P w → Stored e id 1 bs w.objects)
      → ((w : World e) (body : List ℕ)
          → P w
          → P (record w { objects = (e.upload (final_key id) body w.objects).1 }))
      → Runs {e = e} P
          (λ key w.
            (key ≡ final_key id)
            × P w
            × (e.get_object (final_key id) w.objects ≡ ok (some (export_file (concat bs)))))
          (assemble_final_csv id (length bs))
  unfolding assemble_final_csv
  assemble_final_csv-Runs bs willing stored keeps =
      Runs-known P (export_file (concat bs)) P _ _ _
        (Runs-mono P _ _ _ (append_chunks-Runs bs 1 (utf8 csv_header) stored) (λ out w h. (
          h.0 ∙ sym (utf8-append csv_header (serialize_csv_chunk (map csv_row (concat bs)))),
          h.1,
        )))
        (Runs-bind P (λ _ w. There bs w) _ _ _
          (upload_stream-Runs quiet store P stable (final_key id) (export_file (concat bs)) willing
            (λ w p. keeps w (export_file (concat bs)) p))
          (λ _.
            Runs-known (There bs) (length (export_file (concat bs))) (There bs) _ _ _
              (head_object-Runs quiet store (There bs) (λ w h. (stable w h.0, h.1)) (final_key id)
                (export_file (concat bs)) (λ w h. h.1))
              (size_check-Runs (There bs) _ (length (export_file (concat bs)))
                (export_file-size (concat bs)) (λ w h. (refl, h.0, h.1)))))
