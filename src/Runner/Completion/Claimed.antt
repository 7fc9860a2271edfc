-- ===== src/Runner/Completion/Claimed.antt =====
-- A run of a job that was found, from the claim to its end (server/src/services/exportRunner.service.ts),
-- on what the rows and the store hold behind it.
use export_vault.Prelude.{ℕ, ◌≡◌, true, not, ◌==◌}
use export_vault.Model.{ExportJob}
use export_vault.Model.Errors
use export_vault.World.{Env, Db, World}
use export_vault.World.Laws.{IsStore}
use export_vault.World.Safe.{Safe-pure, Safe-bind}
use export_vault.World.Survives.{
  Survives, Survives-pure, Survives-exit, Survives-if, Survives-bind, Survives-given,
  Survives-try_catch, Survives-Keeps,
}
use export_vault.Jobs.{status_eq}
use export_vault.Resume.{ResumeState}
use export_vault.Storage.{final_key}
use export_vault.Verification.{VerificationResult}
use export_vault.Runner.{
  publish, finish_run, after_loop, run_claimed, run_found, begin_at, enough_rounds,
}
use export_vault.Runner.Honest.{FileAt, NotCompleted, CompletedOk, Respects}
use export_vault.Runner.Batches.{batches-Safe}
use export_vault.Runner.Loop.{LoopEnd, finished, cancelled_at, exhausted, out_of_fuel}
use export_vault.Runner.Reads.{verify_export_file-Reads}
use export_vault.Runner.Verified.{
  claim_job-Safe, load_state-Safe, reconcile_job_progress-Safe, set_verifying-Safe,
  set_cancelled-Safe, assemble_final_csv-Keeps,
}
use export_vault.Runner.Completion.Concluded.{
  Low-Ok, arrive-Low, give_up-Safe, on_error-Ok, conclude_run-Ok, Safe-Low, Safe-Ok,
}

module _ {e : Env} (job : ExportJob) (store : IsStore e) (rely : Respects e job) where
  abbrev Low : World e → Type 0
  Low w = NotCompleted job w.db

  abbrev Ok : World e → Type 0
  Ok = CompletedOk e job

  abbrev Verified : VerificationResult → World e → Type 0
  Verified r w =
      Low w
      × (r.passed ≡ true
          → FileAt e (final_key job.id) job.requested_row_limit job.snapshot_max_id w.objects)

  abbrev rely_low : (n : ℕ) (d : Db) → NotCompleted job d → NotCompleted job (e.others n d)
  rely_low = rely (λ key. ⊥)

  publish-Ok : (n : ℕ) (s : ResumeState) → Survives {e = e} Low Ok (λ _ w. Ok w) (publish job n s)
  unfolding publish
  publish-Ok n s =
      Survives-if Ok Low (λ _ w. Ok w) (not (s.rows_written == job.requested_row_limit)) _ _
        (λ _. Safe-Ok job store rely _ (give_up-Safe job store rely job.id n _))
        (λ _.
          Survives-bind Ok Low (λ _ w. Low w) _ _ _
            (Safe-Low job store rely _ (set_verifying-Safe e (λ key. ⊥) job rely_low job.id))
            (λ _.
              Survives-bind Ok Low (λ key w. (key ≡ final_key job.id) × Low w) _ _ _
                (Survives-Keeps (NotCompleted job) Ok (λ key. key ≡ final_key job.id) _
                  (Low-Ok job store rely)
                  (assemble_final_csv-Keeps e (λ key. ⊥) job rely_low job.id s.checkpoint_count))
                (λ key. Survives-given Ok Low _ _ (λ same. rw same (
                  Survives-bind Ok Low Verified _ _ _
                    (verify_export_file-Reads Ok Low (arrive-Low job store rely)
                      (Low-Ok job store rely) (λ w v h. h) (final_key job.id) job.id
                      job.requested_row_limit job.snapshot_max_id)
                    (conclude_run-Ok job store rely n))))))

  finish_run-Ok : (n : ℕ) → Survives {e = e} Low Ok (λ _ w. Ok w) (finish_run job n)
  unfolding finish_run
  finish_run-Ok n =
      Survives-if Ok Low (λ _ w. Ok w) (not (n == job.requested_row_limit)) _ _
        (λ _. Safe-Ok job store rely _ (give_up-Safe job store rely job.id n _))
        (λ _.
          Survives-bind Ok Low (λ _ w. Low w) _ _ _
            (Safe-Low job store rely _ (load_state-Safe e (λ key. ⊥) job rely_low job.id))
            (publish-Ok n))

  after_loop-Ok : (end : LoopEnd) → Survives {e = e} Low Ok (λ _ w. Ok w) (after_loop job end)
  unfolding after_loop
  after_loop-Ok (finished n) = finish_run-Ok n
  after_loop-Ok (cancelled_at n) = Survives-pure Ok Low _ _ (Low-Ok job store rely)
  after_loop-Ok (exhausted n after) =
      Safe-Ok job store rely _ (give_up-Safe job store rely job.id n _)
  after_loop-Ok out_of_fuel = Survives-exit Ok Low _ (Low-Ok job store rely)

  run_claimed-Ok : Survives {e = e} Low Ok (λ _ w. Ok w) (run_claimed job)
  unfolding run_claimed
  run_claimed-Ok =
      Survives-bind Ok Low (λ _ w. Low w) _ _ _
        (Safe-Low job store rely _ (load_state-Safe e (λ key. ⊥) job rely_low job.id))
        (λ s.
          Survives-bind Ok Low (λ _ w. Low w) _ _ _
            (Safe-Low job store rely _
              (reconcile_job_progress-Safe e (λ key. ⊥) job rely_low job.id s))
            (λ _.
              Survives-bind Ok Low (λ _ w. Low w) _ _ _
                (Safe-Low job store rely _
                  (batches-Safe e (λ key. ⊥) job rely_low (enough_rounds job) (begin_at s)))
                after_loop-Ok))

  pub run_found-Ok : Survives {e = e} Low Ok (λ _ w. Ok w) (run_found job)
  unfolding run_found
  run_found-Ok =
      Survives-if Ok Low _ (status_eq job.status Errors.completed) _ _
        (λ _. Survives-pure Ok Low _ _ (Low-Ok job store rely))
        (λ _.
          Survives-if Ok Low _ (status_eq job.status Errors.cancelled) _ _
            (λ _. Survives-pure Ok Low _ _ (Low-Ok job store rely))
            (λ _.
              Survives-if Ok Low _ job.cancel_requested _ _
                (λ _. Safe-Ok job store rely _ (
                  Safe-bind (NotCompleted job) _ _
                    (set_cancelled-Safe e (λ key. ⊥) job rely_low job.id)
                    (λ _. Safe-pure (NotCompleted job) _)))
                (λ _.
                  Survives-bind Ok Low (λ _ w. Low w) _ _ _
                    (Safe-Low job store rely _ (claim_job-Safe e (λ key. ⊥) job rely_low job.id))
                    (λ claimed.
                      Survives-if Ok Low _ (not claimed) _ _
                        (λ _. Survives-pure Ok Low _ _ (Low-Ok job store rely))
                        (λ _.
                          Survives-try_catch Ok Low Ok _ _ _ run_claimed-Ok (λ w h. h)
                            (on_error-Ok job store rely))))))
