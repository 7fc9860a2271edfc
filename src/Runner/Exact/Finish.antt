-- ===== src/Runner/Exact/Finish.antt =====
-- From the end of the loop to a COMPLETED job: the cross-check of the log, the assembly, the
-- verification and the removal of the chunks (server/src/services/exportRunner.service.ts).
use export_vault.Prelude.{
  ℕ, zero, suc, ◌<◌, ◌≤◌, ◌≡◌, ◌≢◌, ◌∙◌, refl, sym, ap, subst, true, none, some, List, [], ◌∷◌,
  ◌++◌, ==_iff, length, take, concat, take-append, All, All-take, All-mono, arith,
}
use export_vault.Text.{Text}
use export_vault.Query.Order.{IsAscending}
use export_vault.Model.{RawRecordRow, ExportJob}
use export_vault.Model.Errors
use export_vault.Result.{ok}
use export_vault.World.{Env, Db, World, arrive}
use export_vault.World.Laws.{IsStore, IsWilling, IsParser}
use export_vault.World.Runs.{
  Runs, Runs-pure, Runs-mono, Runs-bind, Runs-known, Runs-given, Runs-transact,
}
use export_vault.Jobs.{find_job, touched}
use export_vault.Jobs.Laws.{update_job_found}
use export_vault.Storage.{final_key, chunk_prefix}
use export_vault.Storage.Keys.{chunk_keys_apart}
use export_vault.Storage.Runs.{delete_chunks-Runs}
use export_vault.Records.Ascending.{row_id, eligible-bounded}
use export_vault.Verification.{VerificationResult}
use export_vault.Resume.Valid.{position_of}
use export_vault.Runner.{completed, conclude_run, publish, finish_run, after_loop}
use export_vault.Runner.Steps.{
  set_status, set_completed, to_completed, assemble_final_csv, verify_export_file,
}
use export_vault.Runner.Loop.{LoopEnd}
use export_vault.Runner.Durable.{IsOpen, IsSnapshot, Frame, log_of}
use export_vault.Runner.Durable.Log.{rows_written-log_of, checkpoint_count-log_of}
use export_vault.Runner.Durable.Chunks.{Stored-upload_final}
use export_vault.Runner.Exact.File.{export_file}
use export_vault.Runner.Exact.Open.{same_tables-IsOpen, arrive-IsOpen, update-Runs, load_state-Runs}
use export_vault.Runner.Exact.Rounds.{IsDone}
use export_vault.Runner.Exact.Assembly.{assemble_final_csv-Runs}
use export_vault.Runner.Exact.Verdict.{verify_export_file-Runs}

-- The job's row says COMPLETED and names the final key, and the object with that key is the file of
-- the first rows of the snapshot, as many as were asked for.
pub record IsExported (e : Env) (job : ExportJob) (rows : List RawRecordRow) (w : World e)
    : Type 0 where
  pub row : ExportJob
  pub found : find_job job.id w.db.jobs ≡ some row
  pub is_completed : row.status ≡ Errors.completed
  pub names_file : row.file_key ≡ some (final_key job.id)
  pub file :
      e.get_object (final_key job.id) w.objects
      ≡ ok (some (export_file (take job.requested_row_limit rows)))

pub IsAscending-take :
    (n : ℕ) (rows : List RawRecordRow) → IsAscending row_id rows → IsAscending row_id (take n rows)
IsAscending-take zero rows asc = tt
IsAscending-take (suc n) [] asc = tt
IsAscending-take (suc n) (r ∷ rows) (next, asc) =
    (All-take (λ q. r.id < q.id) n rows next, IsAscending-take n rows asc)

module _ {e : Env} (quiet : (n : ℕ) → e.fault n ≡ none) (store : IsStore e) (willing : IsWilling e)
    (no_crash : e.crash_after_rows ≡ none) (job : ExportJob) (rows : List RawRecordRow)
    (frame : (n : ℕ) (d : Db) → Frame job d (e.others n d)) where
  arrive-IsExported : (w : World e) → IsExported e job rows w → IsExported e job rows (arrive w)
  arrive-IsExported w x = record {
    row = x.row;
    found = (frame w.calls w.db).same_job ∙ x.found;
    is_completed = x.is_completed;
    names_file = x.names_file;
    file = x.file;
  }

  -- The removal of keys under the prefix of the chunks leaves the final file.
  delete-IsExported :
      (w : World e) (ks : List Text)
      → All (λ k. (rest : Text) × (k ≡ chunk_prefix job.id ++ rest)) ks
      → IsExported e job rows w
      → IsExported e job rows (record w { objects = (e.delete_objects ks w.objects).1 })
  delete-IsExported w ks under x = record {
    row = x.row;
    found = x.found;
    is_completed = x.is_completed;
    names_file = x.names_file;
    file =
        store.get-delete_ne ks (final_key job.id) w.objects (
          All-mono (λ k. (rest : Text) × (k ≡ chunk_prefix job.id ++ rest))
            (λ k. k ≢ final_key job.id)
            (λ k h same. (chunk_keys_apart job.id 0 0).2 h.0 (sym same ∙ h.1)) ks under)
        ∙ x.file;
  }

  module _ (bs : List (List RawRecordRow)) (rest : List RawRecordRow)
      (full : length (concat bs) ≡ job.requested_row_limit) (whole : concat bs ++ rest ≡ rows)
      (snapshot : IsSnapshot rows) (inside : All (λ r. r.id ≤ job.snapshot_max_id) rows) where
    abbrev Opened : World e → Type 0
    Opened = IsOpen e job rows bs rest

    -- The job is open, and the object with the final key is its file.
    abbrev Assembled : World e → Type 0
    Assembled w =
        Opened w
        × (e.get_object (final_key job.id) w.objects
            ≡ ok (some (export_file (take job.requested_row_limit rows))))

    first_rows : concat bs ≡ take job.requested_row_limit rows
    first_rows =
        sym (take-append (concat bs) rest)
        ∙ ap (λ t. take (length (concat bs)) t) whole
        ∙ ap (λ n. take n rows) full

    arrive-Assembled : (w : World e) → Assembled w → Assembled (arrive w)
    arrive-Assembled w (o, file) = (arrive-IsOpen job rows frame bs rest w o, file)

    set_completed-Runs :
        Runs {e = e} Assembled
          (λ _ w. IsExported e job rows w)
          (set_completed job.id (final_key job.id))
    unfolding set_completed
    set_completed-Runs =
        Runs-bind Assembled (λ _ w. IsExported e job rows w) _ _ _
          (Runs-transact quiet Assembled arrive-Assembled _ _ (λ w h.
            let f = to_completed job.id (final_key job.id) in
            let (done, there, others) = update_job_found job.id f w.db h.0.row h.0.found refl in
            (
              touched w.db.now (f w.db.now h.0.row),
              done,
              record {
                row = touched w.db.now (f w.db.now h.0.row);
                found = there;
                is_completed = refl;
                names_file = refl;
                file = h.1;
              },
            )))
          (λ _. Runs-pure _ _ _ (λ w x. x))

    conclude_run-Runs :
        0 < e.max_pages
        → (r : VerificationResult) → r.passed ≡ true
        → Runs {e = e} Assembled
            (λ o w. (o ≡ completed job.requested_row_limit) × IsExported e job rows w)
            (conclude_run job job.requested_row_limit (final_key job.id) r)
    unfolding conclude_run
    conclude_run-Runs pages r passed = rw passed (
        Runs-bind Assembled (λ _ w. IsExported e job rows w) _ _ _ set_completed-Runs
          (λ _.
            Runs-bind _ (λ _ w. IsExported e job rows w) _ _ _
              (delete_chunks-Runs quiet store (IsExported e job rows) arrive-IsExported willing
                pages job.id delete-IsExported)
              (λ _. Runs-pure _ _ _ (λ w x. (refl, x)))))

    set_verifying-Runs : Runs {e = e} Opened (λ _ w. Opened w) (set_status job.id Errors.verifying)
    unfolding set_status
    set_verifying-Runs =
        Runs-bind Opened (λ _ w. Opened w) _ _ _
          (update-Runs job rows frame bs rest quiet
            (λ now j. record j { status = Errors.verifying }) (λ now j. ground arith))
          (λ _. Runs-pure _ _ _ (λ w o. o))

    assemble-Runs :
        (count : ℕ)
        → count ≡ length bs
        → Runs {e = e} Opened
            (λ key w. (key ≡ final_key job.id) × Assembled w)
            (assemble_final_csv job.id count)
    assemble-Runs count same = rw same (
        Runs-mono _ _ _ _
          (assemble_final_csv-Runs quiet store Opened (arrive-IsOpen job rows frame bs rest) job.id
            bs willing (λ w o. o.durable.stored)
            (λ w body o.
              same_tables-IsOpen job rows frame bs rest w _ refl refl refl
                (Stored-upload_final store job.id bs w.objects body o.durable.stored) o))
          (λ key w h. (h.0, (h.1, h.2 ∙ ap (λ t. ok (some (export_file t))) first_rows))))

    verify-Runs :
        IsParser e
        → Runs {e = e} Assembled
            (λ r w. (r.passed ≡ true) × Assembled w)
            (verify_export_file job.id
              (final_key job.id)
              job.requested_row_limit
              job.snapshot_max_id)
    verify-Runs parser =
        verify_export_file-Runs quiet store parser Assembled arrive-Assembled (final_key job.id)
          (take job.requested_row_limit rows) job.id job.snapshot_max_id job.requested_row_limit
          (ap length (sym first_rows) ∙ full)
          (All-take (λ r. r.id ≤ job.snapshot_max_id) job.requested_row_limit rows inside)
          (IsAscending-take job.requested_row_limit rows snapshot.ascending) (λ w h. h.1)
          (λ w vs h. (
            same_tables-IsOpen job rows frame bs rest w _ refl refl refl h.0.durable.stored h.0,
            h.1,
          ))

    finish_run-Runs :
        IsParser e
        → 0 < e.max_pages
        → Runs {e = e} Opened
            (λ o w. (o ≡ completed job.requested_row_limit) × IsExported e job rows w)
            (finish_run job job.requested_row_limit)
    unfolding finish_run publish
    finish_run-Runs parser pages =
        let same = (==_iff job.requested_row_limit job.requested_row_limit).1 refl in
        let logged =
          (==_iff (position_of (log_of job.id 1 bs)).rows_written job.requested_row_limit).1
            (rows_written-log_of job.id bs ∙ full) in
        rw same (
          Runs-known Opened (position_of (log_of job.id 1 bs)) Opened _ _ _
            (load_state-Runs job rows frame bs rest quiet whole snapshot)
            (rw logged (
              Runs-bind Opened (λ _ w. Opened w) _ _ _ set_verifying-Runs
                (λ _.
                  Runs-known Opened (final_key job.id) Assembled _ _ _
                    (assemble-Runs _ (checkpoint_count-log_of job.id bs))
                    (Runs-bind Assembled (λ r w. (r.passed ≡ true) × Assembled w) _ _ _
                      (verify-Runs parser)
                      (λ r.
                        Runs-given Assembled _ _ _
                          (λ passed. conclude_run-Runs pages r passed)))))))

  -- From the end of the loop the run completes the job.
  pub after_loop-Runs :
      IsParser e
      → 0 < e.max_pages
      → IsSnapshot rows
      → (end : LoopEnd)
      → Runs {e = e}
          (IsDone quiet store willing no_crash job rows frame end)
          (λ o w. (o ≡ completed job.requested_row_limit) × IsExported e job rows w)
          (after_loop job end)
  unfolding after_loop
  after_loop-Runs parser pages snapshot end = record {
    at = λ w done.
        let inside =
          subst (All (λ r. r.id ≤ job.snapshot_max_id)) done.is_open.durable.snapshot
            (eligible-bounded job.snapshot_max_id w.db.records) in
        rw done.by_test (
          (finish_run-Runs done.bs done.rest done.full done.is_open.durable.whole snapshot inside
              parser pages).at
            w done.is_open);
  }
