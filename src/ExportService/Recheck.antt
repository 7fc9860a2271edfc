-- ===== src/ExportService/Recheck.antt =====
-- A verification on demand: `verifyExportJobById` of
-- server/src/services/exportVerification.service.ts and the handler `verify` of
-- server/src/controllers/export.controller.ts.
use export_vault.Prelude.{◌≡◌, ◌∙◌, ap, refl, Bool, true, false, Option, none, some, List, [], ◌∷◌}
use export_vault.Text.{Text}
use export_vault.Model.{ExportJob}
use export_vault.Model.Errors.{ExportStatus, not_found_error, job_not_found}
use export_vault.World.{
  Env, Db, World, M, ExportVerification, ◌>>=◌, ◌>>◌, pure, throw, query, arrive,
}
use export_vault.World.Survives.{
  Survives, Leaves, Survives-pure, Survives-throw, Survives-bind, Survives-query,
}
use export_vault.Jobs.{find_job}
use export_vault.Verification.{VerificationResult}
use export_vault.Runner.Steps.{verify_export_file}
use export_vault.Runner.Honest.{FileAt}
use export_vault.Runner.Reads.{verify_export_file-Reads}
use export_vault.ExportService.{get_owned_export_job, latest_verification}

pub record Recheck : Type 0 where
  pub job : ExportJob
  pub verification : Option VerificationResult
  pub recomputed : Bool

abbrev result_of : Option ExportVerification → Option VerificationResult
result_of none = none
result_of (some v) = some v.result

-- What the handler answers: that there is nothing to verify yet, or the result.
pub data VerifyAnswer : Type 0 where
  nothing_yet : ExportStatus → VerifyAnswer
  verified : (recomputed : Bool) → VerificationResult → VerifyAnswer

abbrev pub answer : ExportJob → Bool → Option VerificationResult → VerifyAnswer
answer job recomputed none = nothing_yet job.status
answer job recomputed (some v) = verified recomputed v

module _ {e : Env} where
  unfoldable pub stored_result : ExportJob → M e Recheck
  unfolding latest_verification
  stored_result job = do
    latest ← query (λ d. latest_verification job.id d.verifications)
    pure (record { job = job; verification = result_of latest; recomputed = false })

  unfoldable pub verify_with_key : ExportJob → Option Text → M e Recheck
  unfolding stored_result verify_export_file
  verify_with_key job none = stored_result job
  verify_with_key job (some []) = stored_result job
  verify_with_key job (some (c ∷ key)) = do
    result ← verify_export_file job.id (c ∷ key) job.requested_row_limit job.snapshot_max_id
    pure (record { job = job; verification = some result; recomputed = true })

  unfoldable pub verify_found : Option ExportJob → M e Recheck
  unfolding verify_with_key
  verify_found none = throw (not_found_error job_not_found)
  verify_found (some job) = verify_with_key job job.file_key

  unfoldable pub verify_export_job_by_id : Text → M e Recheck
  unfolding verify_found find_job
  verify_export_job_by_id id = do found ← query (λ d. find_job id d.jobs); verify_found found

  unfoldable pub verify : Text → Text → M e VerifyAnswer
  unfolding verify_export_job_by_id get_owned_export_job
  verify user id = do
    get_owned_export_job user id
    r ← verify_export_job_by_id id
    pure (answer r.job r.recomputed r.verification)

-- A result that was computed anew and that passed rests on the object that the row names as its file.
abbrev pub RestsOnFile : (e : Env) → Recheck → e.Objects → Type 0
RestsOnFile e r o =
    r.recomputed ≡ true
    → (v : VerificationResult) → r.verification ≡ some v
    → v.passed ≡ true
    → (key : Text) × (r.job.file_key ≡ some key)
      × FileAt e key r.job.requested_row_limit r.job.snapshot_max_id o

module _ {e : Env} (J : List ExportJob → Type 0)
    (rely : (n : _) (d : Db) → J d.jobs → J (e.others n d).jobs) where
  abbrev Inv : World e → Type 0
  Inv w = J w.db.jobs

  abbrev Result : Recheck → World e → Type 0
  Result r w = Inv w × RestsOnFile e r w.objects

  arrive-Inv : (w : World e) → Inv w → Inv (arrive w)
  arrive-Inv w h = rely w.calls w.db h

  stored_result-Rests : (job : ExportJob) → Survives {e = e} Inv Inv Result (stored_result job)
  unfolding stored_result
  stored_result-Rests job =
      Survives-bind Inv Inv (λ _ w. Inv w) Result _ _
        (Survives-query Inv Inv arrive-Inv (λ w h. h) _ _ (λ _ w h. h) (λ w h. h))
        (λ latest. Survives-pure Inv Inv Result _ (λ w h. (h, λ recomputed. absurd (cc))))

  verify_with_key-Rests :
      (job : ExportJob) (key : Option Text)
      → job.file_key ≡ key
      → Survives {e = e} Inv Inv Result (verify_with_key job key)
  unfolding verify_with_key
  verify_with_key-Rests job none named = stored_result-Rests job
  verify_with_key-Rests job (some []) named = stored_result-Rests job
  verify_with_key-Rests job (some (c ∷ key)) named =
      Survives-bind Inv Inv
        (λ r w.
          Inv w
          × (r.passed ≡ true
              → FileAt e (c ∷ key) job.requested_row_limit job.snapshot_max_id w.objects))
        Result _ _
        (verify_export_file-Reads Inv Inv arrive-Inv (λ w h. h) (λ w v h. h) (c ∷ key) job.id
          job.requested_row_limit job.snapshot_max_id)
        (λ r. Survives-pure Inv _ Result _ (λ w h. (
          h.0,
          λ recomputed v same passed.
              let result : r ≡ v = cc in (c ∷ key, named, h.1 (ap (λ t. t.passed) result ∙ passed)),
        )))

  verify_found-Rests :
      (found : Option ExportJob) → Survives {e = e} Inv Inv Result (verify_found found)
  unfolding verify_found
  verify_found-Rests none = Survives-throw Inv Inv Result _ (λ w h. h)
  verify_found-Rests (some job) = verify_with_key-Rests job job.file_key refl

  -- Whatever calls fail: a verification on demand changes no job (whatever holds of the rows of the
  -- jobs, and the other processes keep, holds behind it), and if it returns a result that it computed
  -- anew and that passed, then the store holds, under the key that the row of the job names as its
  -- file, bytes that csv-parse reads as the header and the rows that the job asked for, strictly
  -- ascending within its snapshot.
  pub verify_export_job_by_id-RestsOnFile :
      (id : Text) (w : World e)
      → J w.db.jobs
      → Leaves
          (λ v. J v.db.jobs)
          (λ r v. J v.db.jobs × RestsOnFile e r v.objects)
          (verify_export_job_by_id id w).0
          (verify_export_job_by_id id w).1
  unfolding verify_export_job_by_id
  verify_export_job_by_id-RestsOnFile id w h =
      let s : Survives {e = e} Inv Inv Result (verify_export_job_by_id id) =
        Survives-bind Inv Inv (λ _ w. Inv w) Result _ _
          (Survives-query Inv Inv arrive-Inv (λ w h. h) _ _ (λ _ w h. h) (λ w h. h))
          verify_found-Rests in
      s.at w h
