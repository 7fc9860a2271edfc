-- ===== src/Runner/Completion/Concluded.antt =====
-- The end of a run, on every path: the completion, the removal of the chunks and the failures
-- (server/src/services/exportRunner.service.ts), on what the rows and the store hold behind it.
use export_vault.Prelude.{
  ℕ, ◌≡◌, ◌≢◌, sym, ◌∙◌, refl, true, not, ◌++◌, Option, some, List, arith, All, All-mono,
}
use export_vault.Text.{Text}
use export_vault.Model.{ExportJob}
use export_vault.Model.Errors.{Message, AppError, FailureType, export_integrity_error}
use export_vault.Model.Errors
use export_vault.Result.{Result}
use export_vault.World.{Env, Db, World, M, arrive}
use export_vault.World.Laws.{IsStore}
use export_vault.World.Safe.{Safe, Safe-pure, Safe-bind}
use export_vault.World.Survives.{
  Survives, Leaves-result, Survives-pure, Survives-throw, Survives-if, Survives-bind, Survives-mono,
  Survives-pre, Survives-transact, Survives-try_catch, Survives-Keeps,
}
use export_vault.Jobs.{update_job, touched}
use export_vault.Jobs.Laws.{update_job-All}
use export_vault.Storage.{final_key, chunk_prefix, delete_chunks}
use export_vault.Storage.Keys.{chunk_keys_apart}
use export_vault.Storage.Survives.{delete_chunks-Survives}
use export_vault.Verification.{VerificationResult}
use export_vault.Runner.{give_up, conclude_run, on_error}
use export_vault.Runner.Honest.{
  FileAt, Filed, RowOk, RowsOk, RowsOk-mono, NotCompleted, CompletedOk, Respects, KeepsRow-RowOk,
}
use export_vault.Runner.Steps.{
  record_export_failure, fail_job, to_failed, set_completed, to_completed,
}
use export_vault.Runner.Verified.{fail_job-Safe, fails, set_file_key-Safe}

module _ {e : Env} (job : ExportJob) (store : IsStore e) (rely : Respects e job) where
  abbrev Low : World e → Type 0
  Low w = NotCompleted job w.db

  abbrev Ok : World e → Type 0
  Ok = CompletedOk e job

  -- No row is COMPLETED yet, and the export is in the store.
  abbrev There : World e → Type 0
  There w =
      Low w × FileAt e (final_key job.id) job.requested_row_limit job.snapshot_max_id w.objects

  abbrev rely_low : (n : ℕ) (d : Db) → NotCompleted job d → NotCompleted job (e.others n d)
  rely_low = rely (λ key. ⊥)

  pub Low-Ok : (w : World e) → Low w → Ok w
  Low-Ok w = RowsOk-mono (λ key. ⊥) (Filed e job w.objects) job w.db (λ key h. absurd h)

  pub arrive-Low : (w : World e) → Low w → Low (arrive w)
  arrive-Low w h = rely_low w.calls w.db h

  arrive-Ok : (w : World e) → Ok w → Ok (arrive w)
  arrive-Ok w h = rely (Filed e job w.objects) w.calls w.db h

  -- An action that keeps the tables without a COMPLETED row.
  pub Safe-Low :
      {A : Type 0} (m : M e A) → Safe (NotCompleted job) m → Survives Low Ok (λ _ w. Low w) m
  Safe-Low m s =
      Survives-mono Ok Low _ _ m (Survives-Keeps (NotCompleted job) Ok (λ _. Unit) m Low-Ok s)
        (λ a w h. h.1)

  pub Safe-Ok :
      {A : Type 0} (m : M e A) → Safe (NotCompleted job) m → Survives Low Ok (λ _ w. Ok w) m
  Safe-Ok m s = Survives-mono Ok Low _ _ m (Safe-Low m s) (λ a w h. Low-Ok w h)

  pub give_up-Safe :
      (id : Text) (n : ℕ) (reason : Message) → Safe {e = e} (NotCompleted job) (give_up id n reason)
  unfolding give_up
  give_up-Safe id n reason =
      Safe-bind (NotCompleted job) _ _ (fail_job-Safe e (λ key. ⊥) job rely_low id reason _)
        (λ _. Safe-pure (NotCompleted job) _)

  pub record_export_failure-Ok :
      (id : Option Text) (kind : FailureType) (x : AppError)
      → Survives {e = e} Ok Ok (λ _ w. Ok w) (record_export_failure id kind x)
  unfolding record_export_failure
  record_export_failure-Ok id kind x =
      Survives-try_catch Ok Ok Ok _ _ _
        (Survives-transact Ok Ok arrive-Ok (λ w h. h) _ _ (λ _ w h. h) (λ w h. h)) (λ w h. h)
        (λ y. Survives-pure Ok Ok _ _ (λ w h. h))

  fail_job-Ok :
      (id : Text) (reason : Message) (x : AppError)
      → Survives {e = e} Ok Ok (λ _ w. Ok w) (fail_job id reason x)
  unfolding fail_job
  fail_job-Ok id reason x =
      Survives-bind Ok Ok (λ _ w. Ok w) _ _ _
        (Survives-transact Ok Ok arrive-Ok (λ w h. h) (λ _ w. Ok w)
          (update_job id (to_failed reason)) (λ _ w h. h)
          (λ w h.
            let after : RowsOk (Filed e job w.objects) job
                (update_job id (to_failed reason) w.db).1 =
              update_job-All (RowOk (Filed e job w.objects) job) id (to_failed reason) w.db
                (λ now j same.
                  KeepsRow-RowOk (Filed e job w.objects) job (to_failed reason)
                    (fails e (Filed e job w.objects) job (rely (Filed e job w.objects)) reason) now
                    j)
                h in
            Leaves-result Ok (λ _ v. Ok v) (update_job id (to_failed reason) w.db).0 _ after
              (λ _ _. after)))
        (λ _. record_export_failure-Ok (some id) Errors.export_run_failed x)

  pub on_error-Ok : (x : AppError) → Survives {e = e} Ok Ok (λ _ w. Ok w) (on_error job x)
  unfolding on_error
  on_error-Ok x =
      Survives-bind Ok Ok (λ _ w. Ok w) _ _ _ (fail_job-Ok job.id _ x)
        (λ _. Survives-throw Ok Ok _ x (λ w h. h))

  completes :
      (C : Option Text → Type 0)
      → C (some (final_key job.id))
      → (now : ℕ) (j : ExportJob) → j.id ≡ job.id
      → RowOk C job j
      → RowOk C job (touched now (to_completed job.id (final_key job.id) now j))
  completes C c now j same h = record {
    honest = λ i done. c;
    same_rows = h.same_rows;
    same_snapshot = h.same_snapshot;
  }

  -- COMPLETED, with the export in the store.
  set_completed-Ok :
      Survives {e = e} There Ok (λ _ w. Ok w) (set_completed job.id (final_key job.id))
  unfolding set_completed
  set_completed-Ok =
      Survives-bind Ok There (λ _ w. Ok w) _ _ _
        (Survives-transact Ok There (λ w h. (arrive-Low w h.0, h.1)) (λ w h. Low-Ok w h.0)
          (λ _ w. Ok w) done (λ _ w h. h)
          (λ w h.
            let after : RowsOk (Filed e job w.objects) job (done w.db).1 =
              update_job-All (RowOk (Filed e job w.objects) job) job.id
                (to_completed job.id (final_key job.id)) w.db
                (completes (Filed e job w.objects) (refl, h.1)) (Low-Ok w h.0) in
            Leaves-result Ok (λ _ v. Ok v) (done w.db).0 _ after (λ _ _. after)))
        (λ _. Survives-pure Ok Ok _ _ (λ w h. h))
    where
      done : Db → Result ExportJob × Db
      done = update_job job.id (to_completed job.id (final_key job.id))

  delete_chunks-Ok : Survives {e = e} Ok Ok (λ _ w. Ok w) (delete_chunks job.id)
  delete_chunks-Ok =
      delete_chunks-Survives store Ok Ok arrive-Ok (λ w h. h) job.id
        (λ w ks under.
          RowsOk-mono (Filed e job w.objects) (Filed e job (e.delete_objects ks w.objects).1) job
            w.db
            (λ key filed. (
              filed.0,
              record {
                body = filed.1.body;
                cells = filed.1.cells;
                there = kept w ks under ∙ filed.1.there;
                parsed = filed.1.parsed;
                complete = filed.1.complete;
              },
            )))
    where
      kept :
          (w : World e) (ks : List Text)
          → All (λ k. (rest : Text) × (k ≡ chunk_prefix job.id ++ rest)) ks
          → e.get_object (final_key job.id) (e.delete_objects ks w.objects).1
            ≡ e.get_object (final_key job.id) w.objects
      kept w ks under = store.get-delete_ne ks (final_key job.id) w.objects (
          All-mono (λ k. (rest : Text) × (k ≡ chunk_prefix job.id ++ rest))
            (λ k. k ≢ final_key job.id)
            (λ k h same. (chunk_keys_apart job.id 0 0).2 h.0 (sym same ∙ h.1)) ks under)

  -- What is known behind a verification.
  abbrev Verified : VerificationResult → World e → Type 0
  Verified r w =
      Low w
      × (r.passed ≡ true
          → FileAt e (final_key job.id) job.requested_row_limit job.snapshot_max_id w.objects)

  pub conclude_run-Ok :
      (n : ℕ) (r : VerificationResult)
      → Survives {e = e} (Verified r) Ok (λ _ w. Ok w) (conclude_run job n (final_key job.id) r)
  unfolding conclude_run
  conclude_run-Ok n r =
      Survives-if Ok (Verified r) (λ _ w. Ok w) (not r.passed) _ _
        (λ _.
          Survives-pre Ok Low (λ _ w. Ok w) _ (λ w h. h.0)
            (Safe-Ok _ (
              Safe-bind (NotCompleted job) _ _
                (set_file_key-Safe job rely_low job.id (final_key job.id))
                (λ _. give_up-Safe job.id n _))))
        (λ good.
          Survives-pre Ok There (λ _ w. Ok w) _ (λ w h. (h.0, h.1 (ground arith)))
            (Survives-bind Ok There (λ _ w. Ok w) _ _ _ set_completed-Ok
              (λ _.
                Survives-bind Ok Ok (λ _ w. Ok w) _ _ _ delete_chunks-Ok
                  (λ _. Survives-pure Ok Ok _ _ (λ w h. h)))))
