-- ===== src/Runner/Crash/Finish.antt =====
-- The cross-check, the assembly and what follows, whatever of it fails
-- (server/src/services/exportRunner.service.ts).
use export_vault.Prelude.{
  ℕ, ◌+◌, ◌≤◌, ◌≡◌, ◌∙◌, refl, sym, ap, not, some, inl, inr, List, [], ◌∷◌, ◌++◌, arith, ◌==◌,
  length, take, concat, take-append, append_assoc, append-nil, map,
}
use export_vault.Text.{Text}
use export_vault.Text.Utf8.{utf8, utf8-append}
use export_vault.Csv.{csv_header, serialize_csv_chunk}
use export_vault.Model.{RawRecordRow, ExportJob}
use export_vault.Model.Errors
use export_vault.Model.Errors.{export_integrity_error, assembled_empty}
use export_vault.Result.{Result, ok}
use export_vault.World.{Env, Db, World, arrive, pure, lift}
use export_vault.World.Laws.{IsStore}
use export_vault.World.Survives.{
  Survives, Leaves-result, Survives-pure, Survives-throw, Survives-if, Survives-bind,
  Survives-known, Survives-pre, Survives-mono, Survives-query, Survives-transact,
}
use export_vault.Jobs.{update_job}
use export_vault.Storage.{chunk_key, final_key, upload_stream}
use export_vault.Storage.Survives.{
  get_object_stream-Survives, upload_stream-Survives, head_object-Survives,
}
use export_vault.Resume.{ResumeState}
use export_vault.Resume.Valid.{position_of}
use export_vault.Runner.{publish, finish_run}
use export_vault.Runner.Steps.{append_chunks, assemble_final_csv, load_state, set_status}
use export_vault.Runner.Durable.{IsOpen, IsSnapshot, Frame, Stored, log_of, chunk_bytes, csv_row}
use export_vault.Runner.Durable.Log.{
  load_resume_state-log_of, rows_written-log_of, checkpoint_count-log_of,
}
use export_vault.Runner.Durable.Bytes.{rows_bytes, rows_bytes-append, chunk_bytes-eq}
use export_vault.Runner.Durable.Chunks.{Stored-upload_final}
use export_vault.Runner.Exact.File.{export_file}
use export_vault.Runner.Exact.Open.{arrive-IsOpen, update-IsOpen, same_tables-IsOpen}
use export_vault.Runner.Crash.{Saved, FileThere}
use export_vault.Runner.Crash.Batch.{kept}
use export_vault.Runner.Crash.Steps.{
  give_up-Survives, verify_export_file-Survives, conclude_run-Survives,
}

module _ {e : Env} (store : IsStore e) (I P : World e → Type 0)
    (stable : (w : World e) → P w → P (arrive w)) (fails : (w : World e) → P w → I w)
    (id : Text) where
  append_chunks-Survives :
      (bs : List (List RawRecordRow)) (n : ℕ) (body : List ℕ)
      → ((w : World e) → P w → Stored e id n bs w.objects)
      → Survives {e = e} P I
          (λ out w. (out ≡ body ++ rows_bytes (concat bs)) × P w)
          (append_chunks (length bs) n id body)
  unfolding append_chunks utf8 serialize_csv_chunk
  append_chunks-Survives [] n body stored =
      Survives-pure I P _ body (λ w p. (sym (append-nil body), p))
  append_chunks-Survives (b ∷ bs) n body stored =
      Survives-known I P (chunk_bytes b) P _ _ _
        (get_object_stream-Survives store I P stable fails (chunk_key id n) (chunk_bytes b)
          (λ w p. (stored w p).0))
        (Survives-mono I P _ _ _
          (append_chunks-Survives bs (n + 1) (body ++ chunk_bytes b) (λ w p. (stored w p).1))
          (λ out w h. (
            h.0
                ∙ append_assoc body (chunk_bytes b) (rows_bytes (concat bs))
                ∙ ap (λ t. body ++ t)
                    (ap (λ t. t ++ rows_bytes (concat bs)) (chunk_bytes-eq b)
                      ∙ sym (rows_bytes-append b (concat bs))),
            h.1,
          )))

module _ {e : Env} (store : IsStore e) (job : ExportJob) (rows : List RawRecordRow)
    (frame : (n : ℕ) (d : Db) → Frame job d (e.others n d)) (before : List (List RawRecordRow))
    (bs more : List (List RawRecordRow)) (rest : List RawRecordRow) (grown : bs ≡ before ++ more)
    (within : length (concat bs) ≤ job.requested_row_limit) (whole : concat bs ++ rest ≡ rows) where
  abbrev Safe : World e → Type 0
  Safe = Saved e job rows before

  abbrev Opened : World e → Type 0
  Opened = IsOpen e job rows bs rest

  abbrev There : World e → Type 0
  There = FileThere e job rows

  Opened-Safe : (w : World e) → Opened w → Safe w
  Opened-Safe w o = inl (kept store job rows frame before bs more rest grown within w o)

  -- If the assembly returns, the whole file is in the store.
  assemble_final_csv-Survives :
      (count : ℕ)
      → count ≡ length bs
      → length (concat bs) ≡ job.requested_row_limit
      → Survives {e = e} Opened Safe
          (λ key w. (key ≡ final_key job.id) × There w)
          (assemble_final_csv job.id count)
  unfolding assemble_final_csv
  assemble_final_csv-Survives count same full = rw same (
      Survives-known Safe Opened (export_file (concat bs)) Opened _ _ _
        (Survives-mono Safe Opened _ _ _
          (append_chunks-Survives store Safe Opened (arrive-IsOpen job rows frame bs rest)
            Opened-Safe job.id bs 1 (utf8 csv_header) (λ w o. o.durable.stored))
          (λ out w h. (
            h.0 ∙ sym (utf8-append csv_header (serialize_csv_chunk (map csv_row (concat bs)))),
            h.1,
          )))
        (Survives-bind Safe Opened (λ _ w. There w) _ _ _ upload
          (λ _.
            Survives-bind Safe There (λ _ w. There w) _ _ _
              (head_object-Survives store Safe There (λ w t. t) (λ w t. inr t) (final_key job.id))
              (λ size.
                Survives-if Safe There _ (size == 0) _ _
                  (λ _. Survives-throw Safe There _ _ (λ w t. inr t))
                  (λ _. Survives-pure Safe There _ _ (λ w t. (refl, t)))))))
    where
      first_rows : concat bs ≡ take job.requested_row_limit rows
      first_rows =
          sym (take-append (concat bs) rest)
          ∙ ap (λ t. take (length (concat bs)) t) whole
          ∙ ap (λ n. take n rows) full

      upload :
          Survives {e = e} Opened Safe
            (λ _ w. There w)
            (upload_stream (final_key job.id) (export_file (concat bs)))
      upload =
          Survives-mono Safe Opened _ _ _
            (upload_stream-Survives store Safe Opened (arrive-IsOpen job rows frame bs rest)
              Opened-Safe (final_key job.id) (export_file (concat bs))
              (λ w o.
                same_tables-IsOpen job rows frame bs rest w _ refl refl refl
                  (Stored-upload_final store job.id bs w.objects _ o.durable.stored) o))
            (λ _ w h. h.1 ∙ ap (λ t. ok (some (export_file t))) first_rows)

  pub load_state-Survives :
      IsSnapshot rows
      → Survives {e = e} Opened Safe
          (λ s w. (s ≡ position_of (log_of job.id 1 bs)) × Opened w)
          (load_state job.id)
  unfolding load_state lift pure
  load_state-Survives snapshot =
      Survives-known Safe Opened (ok (position_of (log_of job.id 1 bs))) Opened _ _ _
        (Survives-query Safe Opened (arrive-IsOpen job rows frame bs rest) Opened-Safe _ _
          (λ l w h. Opened-Safe w h.1)
          (λ w o. (
            load_resume_state-log_of job.id bs rest o.durable.filled (rw whole snapshot.positive)
                (rw whole snapshot.ascending) w.db.checkpoints o.durable.logged,
            o,
          )))
        (Survives-pure Safe Opened _ _ (λ w o. (refl, o)))

  set_verifying-Survives :
      Survives {e = e} Opened Safe (λ _ w. Opened w) (set_status job.id Errors.verifying)
  unfolding set_status
  set_verifying-Survives =
      Survives-bind Safe Opened (λ _ w. Opened w) _ _ _
        (Survives-transact Safe Opened (arrive-IsOpen job rows frame bs rest) Opened-Safe
          (λ _ w. Opened w) verifying (λ _ w o. Opened-Safe w o)
          (λ w o.
            let after =
              update-IsOpen job rows frame bs rest (λ now j. record j { status = Errors.verifying })
                w (λ now j. ground arith) o in
            Leaves-result Safe (λ _ v. Opened v) (verifying w.db).0 _ (Opened-Safe _ after)
              (λ _ _. after)))
        (λ _. Survives-pure Safe Opened _ _ (λ w o. o))
    where
      verifying : Db → Result ExportJob × Db
      verifying = update_job job.id (λ now j. record j { status = Errors.verifying })

  publish-Survives :
      (n : ℕ) (s : ResumeState)
      → s ≡ position_of (log_of job.id 1 bs)
      → Survives {e = e} Opened Safe (λ _ w. Safe w) (publish job n s)
  unfolding publish
  publish-Survives n s same =
      Survives-if Safe Opened (λ _ w. Safe w) (not (s.rows_written == job.requested_row_limit)) _ _
        (λ _. Survives-pre Safe Safe _ _ Opened-Safe (give_up-Survives job rows frame before n _))
        (λ agree.
          let counted : s.rows_written ≡ job.requested_row_limit = ground arith in
          let full =
            sym (rows_written-log_of job.id bs)
            ∙ ap (λ (t : ResumeState). t.rows_written) (sym same)
            ∙ counted in
          let chunks =
            ap (λ (t : ResumeState). t.checkpoint_count) same ∙ checkpoint_count-log_of job.id bs in
          Survives-bind Safe Opened (λ _ w. Opened w) _ _ _ set_verifying-Survives
            (λ _.
              Survives-known Safe Opened (final_key job.id) There _ _ _
                (assemble_final_csv-Survives s.checkpoint_count chunks full)
                (Survives-bind Safe There (λ _ w. There w) _ _ _
                  (verify_export_file-Survives job rows frame before store _ _)
                  (λ r. conclude_run-Survives job rows frame before store n r))))

  pub finish_run-Survives :
      IsSnapshot rows → (n : ℕ) → Survives {e = e} Opened Safe (λ _ w. Safe w) (finish_run job n)
  unfolding finish_run
  finish_run-Survives snapshot n =
      Survives-if Safe Opened (λ _ w. Safe w) (not (n == job.requested_row_limit)) _ _
        (λ _. Survives-pre Safe Safe _ _ Opened-Safe (give_up-Survives job rows frame before n _))
        (λ _.
          Survives-known Safe Opened (position_of (log_of job.id 1 bs)) Opened _ _ _
            (load_state-Survives snapshot) (publish-Survives n _ refl))
