-- ===== src/ExportService/Access.antt =====
-- Who may do what, and when (server/src/services/export.service.ts).
use export_vault.Prelude.{
  [], ◌∷◌, ◌≤◌, ◌<◌, ◌≡◌, ◌≢◌, ◌∙◌, refl, sym, ap, subst, true, Option, none, some, arith, ltb,
  ◌==◌, Bool-cases, inl, inr,
}
use export_vault.Prelude.Int.{pos, negsuc}
use export_vault.Text.{Text, text_eq_iff}
use export_vault.Model.{ExportJob}
use export_vault.Model.Errors.{
  validation_error, not_found_error, job_not_found, row_limit_not_positive, row_limit_too_high,
  AppError, status_code, forbidden_error, conflict_error, not_verified, not_completed,
}
use export_vault.Model.Errors
use export_vault.Result.{ok}
use export_vault.World.{
  Env, World, ExportVerification, Out, returned, thrown, throw, ◌>>=◌, query, arrive,
}
use export_vault.World.Returns.{bind-returned, query-returned, lift-returned, pure-returned}
use export_vault.Jobs.{find_job, status_eq}
use export_vault.Jobs.Laws.{status_eq_sound}
use export_vault.ExportService.Dashboard.{get_export_job_detail}
use export_vault.ExportService.Recheck.{verify}
use export_vault.ExportService.{
  Number, integer, fractional, max_row_limit, create_export_job, owned_by, get_owned_export_job,
  resume_export_job, cancel_export_job, latest_verification, signed, with_key, download_owned,
  get_export_download, Download, file_name,
}

-- The job is not there, or belongs to somebody else.
abbrev pub IsForeign : Text → Option ExportJob → Type 0
IsForeign user none = Unit
IsForeign user (some j) = j.user_id ≢ user

abbrev pub refusal : {e : Env} {A : Type 0} → World e → Out A × World e
refusal w = (thrown (not_found_error job_not_found), w)

owned_by-refused :
    {e : Env} (user : Text) (found : Option ExportJob) (w : World e)
    → IsForeign user found
    → owned_by user found w ≡ refusal w
unfolding owned_by throw
owned_by-refused user none w h = refl
owned_by-refused user (some j) w h = ground (arith, text_eq_iff j.user_id user)

get_owned_export_job-refused :
    {e : Env} (user id : Text) (w : World e)
    → e.fault w.calls ≡ none
    → IsForeign user (find_job id (arrive w).db.jobs)
    → get_owned_export_job user id w ≡ refusal (arrive w)
unfolding get_owned_export_job ◌>>=◌ query
get_owned_export_job-refused user id w quiet h = rw (quiet) (owned_by-refused user _ (arrive w) h)

module _ {e : Env} (user id : Text) (w : World e) where
  -- If the call for the job does not fail: for a job that is not there, and for a job of another
  -- user, a resume, a cancellation, a download, the detail and a verification on demand all answer
  -- the same 404, and leave the world as the lookup found it.
  pub foreign_job_refused :
      e.fault w.calls ≡ none
      → IsForeign user (find_job id (arrive w).db.jobs)
      → (resume_export_job user id w ≡ refusal (arrive w))
        × (cancel_export_job user id w ≡ refusal (arrive w))
        × (get_export_download user id w ≡ refusal (arrive w))
        × (get_export_job_detail user id w ≡ refusal (arrive w))
        × (verify user id w ≡ refusal (arrive w))
  unfolding resume_export_job cancel_export_job get_export_download get_export_job_detail verify
      ◌>>=◌
  foreign_job_refused quiet h =
      let refused = get_owned_export_job-refused user id w quiet h in
      (rw refused, rw refused, rw refused, rw refused, rw refused)

-- A number of rows that is a positive integer up to the cap.
abbrev pub IsRowLimit : Number → Type 0
IsRowLimit fractional = ⊥
IsRowLimit (integer (negsuc n)) = ⊥
IsRowLimit (integer (pos n)) = (0 < n) × (n ≤ max_row_limit)

-- A request for any other number of rows is refused with status 400 before anything is read or
-- written.
pub create_export_job-rejects :
    {e : Env} (user : Text) (limit : Number) (w : World e)
    → ¬ IsRowLimit limit
    → (x : AppError) × (create_export_job user limit w ≡ (thrown x, w)) × (status_code x ≡ 400)
unfolding create_export_job throw
create_export_job-rejects user fractional w h =
    (validation_error row_limit_not_positive, refl, refl)
create_export_job-rejects user (integer (negsuc n)) w h =
    (validation_error row_limit_not_positive, refl, refl)
create_export_job-rejects user (integer (pos n)) w h = elim (Bool-cases (n == 0)) [
  | inl none_asked ↦ (validation_error row_limit_not_positive, rw none_asked, refl)
  | inr some_asked ↦ elim (Bool-cases (ltb max_row_limit n)) [
    | inl high ↦ (validation_error row_limit_too_high, rw (some_asked, high), refl)
    | inr low ↦ absurd (h (ground arith, ground arith))
  ]
]

-- What a download rests on: the job is COMPLETED and has a file key, and the latest verification of
-- that job has passed when it is looked up; the link is signed for that key, and the hash is that of
-- the verification.
pub record IsDownloadable {e : Env} (job : ExportJob) (w : World e) (x : Download) : Type 0 where
  pub is_completed : job.status ≡ Errors.completed
  pub key : Text
  pub has_key : job.file_key ≡ some key
  pub verification : ExportVerification
  pub latest : latest_verification job.id (arrive w).db.verifications ≡ some verification
  pub passed : verification.result.passed ≡ true
  pub named : x.filename ≡ file_name job
  pub signed_key : e.sign_url key (file_name job) ≡ ok x.url
  pub same_hash : x.sha256 ≡ verification.result.sha256

signed-IsDownloadable :
    {e : Env} (job : ExportJob) (key : Text) (w : World e) (x : Download) (w' : World e)
    (latest : Option ExportVerification)
    → job.status ≡ Errors.completed
    → job.file_key ≡ some key
    → latest ≡ latest_verification job.id (arrive w).db.verifications
    → signed job key latest (arrive w) ≡ (returned x, w')
    → IsDownloadable job w x
unfolding signed throw
signed-IsDownloadable job key w x w' none done has_key read h = absurd (cc)
signed-IsDownloadable {e} job key w x w' (some v) done has_key read h =
    elim (Bool-cases v.result.passed) [
      | inr bad ↦
          let p : ◌≡◌ {A = Out Download × World e} (thrown (forbidden_error not_verified), arrive w)
              (returned x, w') =
            rw (bad, signed, throw) at h in
          absurd (cc)
      | inl good ↦
          let (url, linked, rest) = bind-returned _ _ (arrive w) w' x (rw (good, signed) at h) in
          let (link, same) = lift-returned (e.sign_url key (file_name job)) (arrive w) url linked in
          let (made, end) = pure-returned _ _ w' x rest in
          record {
            is_completed = done;
            key = key;
            has_key = has_key;
            verification = v;
            latest = sym read;
            passed = good;
            named = ap (λ (y : Download). y.filename) (sym made);
            signed_key = link ∙ ap ok (ap (λ (y : Download). y.url) made);
            same_hash = ap (λ (y : Download). y.sha256) (sym made);
          }
    ]

with_key-IsDownloadable :
    {e : Env} (job : ExportJob) (key : Option Text) (w : World e) (x : Download) (w' : World e)
    → job.status ≡ Errors.completed
    → job.file_key ≡ key
    → with_key job key w ≡ (returned x, w')
    → IsDownloadable job w x
unfolding with_key throw
with_key-IsDownloadable job none w x w' done has_key h = absurd (cc)
with_key-IsDownloadable job (some []) w x w' done has_key h = absurd (cc)
with_key-IsDownloadable {e} job (some (c ∷ key)) w x w' done has_key h =
    let (latest, found, rest) = bind-returned _ _ w w' x h in
    let (read, there) = query-returned _ w latest found in
    signed-IsDownloadable job (c ∷ key) w x w' latest done has_key read
      (subst (λ u. signed job (c ∷ key) latest u ≡ (returned x, w')) there rest)

-- A download that is granted has all that it rests on.
pub download_owned-IsDownloadable :
    {e : Env} (job : ExportJob) (w : World e) (x : Download) (w' : World e)
    → download_owned job w ≡ (returned x, w')
    → IsDownloadable job w x
unfolding download_owned throw
download_owned-IsDownloadable {e} job w x w' h =
    elim (Bool-cases (status_eq job.status Errors.completed)) [
      | inl done ↦
          with_key-IsDownloadable job job.file_key w x w' (status_eq_sound _ _ done) refl
            (rw (done, download_owned) at h)
      | inr other ↦
          let p : ◌≡◌ {A = Out Download × World e}
              (thrown (conflict_error (not_completed job.status)), w) (returned x, w') =
            rw (other, download_owned, throw) at h in
          absurd (cc)
    ]
