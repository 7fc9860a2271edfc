-- ===== src/Runner/Crash/Steps.antt =====
-- The steps of a run that only touch the tables, and those that follow the assembly, whatever of
-- them fails (server/src/services/exportRunner.service.ts, exportFailure.service.ts,
-- exportVerification.service.ts).
use export_vault.Prelude.{
  ℕ, ◌≡◌, ◌≢◌, ◌∙◌, refl, sym, not, inl, inr, List, ◌++◌, take, All, All-mono, arith,
}
use export_vault.Text.{Text}
use export_vault.Model.{RawRecordRow, ExportJob, ExportFailure}
use export_vault.Model.Errors.{Message, AppError}
use export_vault.Result.{Result}
use export_vault.World.{Env, Db, World, transact}
use export_vault.World.Laws.{IsStore}
use export_vault.World.Survives.{
  Survives, Leaves-result, Survives-pure, Survives-throw, Survives-if, Survives-bind, Survives-lift,
  Survives-pre, Survives-try_catch, Survives-transact,
}
use export_vault.Jobs.{update_job}
use export_vault.Storage.{final_key, chunk_prefix}
use export_vault.Storage.Keys.{chunk_keys_apart}
use export_vault.Storage.Survives.{
  head_object-Survives, get_object_stream-Survives, delete_chunks-Survives,
}
use export_vault.Verification.{VerificationResult}
use export_vault.Runner.{give_up, on_error, conclude_run}
use export_vault.Runner.Steps.{
  fail_job, record_export_failure, set_file_key, set_completed, to_failed, verify_export_file,
}
use export_vault.Runner.Durable.{Frame}
use export_vault.Runner.Exact.Open.{same_tables-IsOpen}
use export_vault.Runner.Exact.File.{export_file}
use export_vault.Runner.Crash.{Saved, FileThere, arrive-Saved, update-Saved}

module _ {e : Env} (job : ExportJob) (rows : List RawRecordRow)
    (frame : (n : ℕ) (d : Db) → Frame job d (e.others n d))
    (before : List (List RawRecordRow)) where
  abbrev Safe : World e → Type 0
  Safe = Saved e job rows before

  module _ {A : Type 0} (op : Db → Result A × Db) where
    transact-Safe :
        ((w : World e) → Safe w → Safe (record w { db = (op w.db).1 }))
        → Survives {e = e} Safe Safe (λ _ w. Safe w) (transact op)
    transact-Safe keeps =
        Survives-transact Safe Safe (arrive-Saved job rows frame before) (λ w s. s) (λ _ w. Safe w)
          op (λ a w s. s)
          (λ w s. Leaves-result Safe (λ _ v. Safe v) (op w.db).0 _ (keeps w s) (λ a _. keeps w s))

    -- The object store is out of the reach of the statements on the tables.
    transact-There :
        Survives {e = e} (FileThere e job rows) Safe (λ _ w. FileThere e job rows w) (transact op)
    transact-There =
        Survives-transact Safe (FileThere e job rows) (λ w there. there) (λ w there. inr there)
          (λ _ w. FileThere e job rows w) op (λ a w there. inr there)
          (λ w there.
            Leaves-result Safe (λ _ v. FileThere e job rows v) (op w.db).0 _ (inr there)
              (λ a _. there))

  failures-Safe :
      (w : World e) (fs : List ExportFailure)
      → Safe w
      → Safe (record w { db = record w.db { failures = fs } })
  failures-Safe w fs (inl k) = inl (record {
    bs = k.bs;
    rest = k.rest;
    more = k.more;
    grown = k.grown;
    within = k.within;
    is_open =
        same_tables-IsOpen job rows frame k.bs k.rest w _ refl refl refl k.is_open.durable.stored
          k.is_open;
  })
  failures-Safe w fs (inr there) = inr there

  -- A failure is recorded without loss.
  fail_job-Survives :
      (reason : Message) (x : AppError)
      → Survives {e = e} Safe Safe (λ _ w. Safe w) (fail_job job.id reason x)
  unfolding fail_job record_export_failure
  fail_job-Survives reason x =
      Survives-bind Safe Safe (λ _ w. Safe w) _ _ _
        (transact-Safe (update_job job.id (to_failed reason)) (λ w s.
          update-Saved job rows frame before (to_failed reason) w (λ now j. ground arith) s))
        (λ _.
          Survives-try_catch Safe Safe Safe (λ _ w. Safe w) _ _
            (transact-Safe _ (λ w s. failures-Safe w _ s)) (λ w s. s)
            (λ y. Survives-pure Safe Safe _ tt (λ w s. s)))

  pub give_up-Survives :
      (n : ℕ) (reason : Message)
      → Survives {e = e} Safe Safe (λ _ w. Safe w) (give_up job.id n reason)
  unfolding give_up
  give_up-Survives n reason =
      Survives-bind Safe Safe (λ _ w. Safe w) _ _ _ (fail_job-Survives reason _)
        (λ _. Survives-pure Safe Safe _ _ (λ w s. s))

  pub on_error-Survives :
      (x : AppError) → Survives {e = e} Safe Safe (λ _ w. Safe w) (on_error job x)
  unfolding on_error
  on_error-Survives x =
      Survives-bind Safe Safe (λ _ w. Safe w) _ _ _ (fail_job-Survives _ x)
        (λ _. Survives-throw Safe Safe _ x (λ w s. s))

  module _ (store : IsStore e) where
    abbrev There : World e → Type 0
    There = FileThere e job rows

    -- The verification leaves the file where it is.
    pub verify_export_file-Survives :
        (expected snapshot : ℕ)
        → Survives {e = e} There Safe
            (λ _ w. There w)
            (verify_export_file job.id (final_key job.id) expected snapshot)
    unfolding verify_export_file
    verify_export_file-Survives expected snapshot =
        Survives-bind Safe There (λ _ w. There w) _ _ _
          (head_object-Survives store Safe There (λ w t. t) (λ w t. inr t) (final_key job.id))
          (λ bytes.
            Survives-bind Safe There
              (λ b w. (b ≡ export_file (take job.requested_row_limit rows)) × There w) _ _ _
              (get_object_stream-Survives store Safe There (λ w t. t) (λ w t. inr t)
                (final_key job.id) (export_file (take job.requested_row_limit rows)) (λ w t. t))
              (λ body.
                Survives-pre Safe There _ _ (λ w h. h.1)
                  (Survives-bind Safe There (λ _ w. There w) _ _ _
                    (Survives-lift Safe There _ (e.parse body) (λ w t. inr t) (λ _ w t. t))
                    (λ parsed.
                      Survives-bind Safe There (λ _ w. There w) _ _ _ (transact-There _)
                        (λ _. Survives-pure Safe There _ _ (λ w t. t))))))

    delete-There :
        (w : World e) (ks : List Text)
        → All (λ k. (rest : Text) × (k ≡ chunk_prefix job.id ++ rest)) ks
        → There w
        → There (record w { objects = (e.delete_objects ks w.objects).1 })
    delete-There w ks under there =
        store.get-delete_ne ks (final_key job.id) w.objects (
          All-mono (λ k. (rest : Text) × (k ≡ chunk_prefix job.id ++ rest))
            (λ k. k ≢ final_key job.id)
            (λ k h same. (chunk_keys_apart job.id 0 0).2 h.0 (sym same ∙ h.1)) ks under)
        ∙ there

    -- Whatever fails behind the verification, the file stays.
    pub conclude_run-Survives :
        (n : ℕ) (r : VerificationResult)
        → Survives {e = e} There Safe (λ _ w. Safe w) (conclude_run job n (final_key job.id) r)
    unfolding conclude_run set_file_key set_completed
    conclude_run-Survives n r =
        Survives-if Safe There (λ _ w. Safe w) (not r.passed) _ _
          (λ _.
            Survives-bind Safe There (λ _ w. There w) _ _ _
              (Survives-bind Safe There (λ _ w. There w) _ _ _ (transact-There _)
                (λ _. Survives-pure Safe There _ _ (λ w t. t)))
              (λ _. Survives-pre Safe Safe _ _ (λ w t. inr t) (give_up-Survives n _)))
          (λ _.
            Survives-bind Safe There (λ _ w. There w) _ _ _
              (Survives-bind Safe There (λ _ w. There w) _ _ _ (transact-There _)
                (λ _. Survives-pure Safe There _ _ (λ w t. t)))
              (λ _.
                Survives-bind Safe There (λ _ w. There w) _ _ _
                  (delete_chunks-Survives store Safe There (λ w t. t) (λ w t. inr t) job.id
                    delete-There)
                  (λ _. Survives-pure Safe There _ _ (λ w t. inr t))))
