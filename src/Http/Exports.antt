-- ===== src/Http/Exports.antt =====
-- The routes of server/src/routes/export.routes.ts with the schemas and handlers of
-- server/src/controllers/export.controller.ts. What a handler answers is what the service returns.
use export_vault.Prelude.{ℕ, Bool, not, Option, none, some, List, [], ◌∷◌, if◌then◌else◌}
use export_vault.Prelude.Int.{pos}
use export_vault.Text.{Text, codes}
use export_vault.Model.{ExportJob}
use export_vault.Model.Errors.{app_error, too_many_exports}
use export_vault.World.{Env, M, ExportVerification, pure, query, ◌>>=◌, throw, lift, read_clock}
use export_vault.Auth.{Crypto, require_auth}
use export_vault.ExportService.{
  Download, integer, create_export_job, resume_export_job, cancel_export_job, get_export_download,
  max_row_limit, latest_verification,
}
use export_vault.ExportService.Recheck.{VerifyAnswer, verify}
use export_vault.ExportService.Dashboard.{
  JobDetail, Stats, get_export_job_detail, list_export_jobs, get_export_stats,
}
use export_vault.Config.Checked.{Checked, valid, invalid, invalid_string}
use export_vault.Config.Fields.{JsNumber, issue, positive_number}
use export_vault.Http.Middleware.{validate_body, validate_params}

-- createExportSchema, at what `Number` makes of the field, if the body has it
unfoldable pub create_export_schema : Option JsNumber → Checked ℕ
unfolding positive_number
create_export_schema none = valid max_row_limit
create_export_schema (some x) = positive_number (codes "rowLimit") (some max_row_limit) x

-- exportIdParamSchema; the pattern of a uuid is the schema library's
unfoldable pub export_id_param_schema : (is_uuid : Text → Bool) → Text → Checked Text
export_id_param_schema is_uuid id =
    if is_uuid id then valid id else invalid (issue (codes "id") invalid_string) []

module _ (c : Crypto) {e : Env} where
  -- exportRouter.use(requireAuth)
  unfoldable pub authenticated : {A : Type 0} → Option Text → (Text → M e A) → M e A
  authenticated header next = do
    now ← read_clock
    user ← lift (require_auth c now header)
    next user

  -- exportCreationLimiter, by whether it lets the user through
  unfoldable pub limited : {A : Type 0} → Bool → M e A → M e A
  limited allowed next =
      if not allowed then throw (app_error too_many_exports 429 (codes "RATE_LIMITED")) else next

  -- POST /
  unfoldable pub post_export :
      (allowed : Text → Bool) → Option Text → Option JsNumber → M e ExportJob
  unfolding limited
  post_export allowed header row_limit = authenticated header (λ user. limited (allowed user) (do
    limit ← lift (validate_body (create_export_schema row_limit))
    create_export_job user (integer (pos limit))))

  -- The jobs, each with its latest verification; `Promise.all` is one query after another.
  unfoldable pub with_verifications :
      List ExportJob → M e (List (ExportJob × Option ExportVerification))
  unfolding latest_verification
  with_verifications [] = pure []
  with_verifications (j ∷ js) = do
    latest ← query (λ d. latest_verification j.id d.verifications)
    rest ← with_verifications js
    pure ((j, latest) ∷ rest)

  -- GET / and GET /stats
  unfoldable pub get_list : Option Text → M e (List (ExportJob × Option ExportVerification))
  unfolding with_verifications
  get_list header =
      authenticated header (λ user. do jobs ← list_export_jobs user; with_verifications jobs)

  unfoldable pub get_stats : Option Text → M e Stats
  get_stats header = authenticated header get_export_stats

  -- The routes of one job: validateParams, and a handler with `req.userId` and `req.params.id`.
  unfoldable pub for_job :
      {A : Type 0} → (is_uuid : Text → Bool) → Option Text → Text → (Text → Text → M e A) → M e A
  for_job is_uuid header id handler = authenticated header (λ user. do
    checked ← lift (validate_params (export_id_param_schema is_uuid id))
    handler user id)

  module _ (is_uuid : Text → Bool) where
    unfoldable pub post_resume : Option Text → Text → M e ExportJob
    post_resume header id = for_job is_uuid header id resume_export_job

    unfoldable pub post_cancel : Option Text → Text → M e ExportJob
    post_cancel header id = for_job is_uuid header id cancel_export_job

    unfoldable pub get_download : Option Text → Text → M e Download
    get_download header id = for_job is_uuid header id get_export_download

    unfoldable pub get_detail : Option Text → Text → M e JobDetail
    get_detail header id = for_job is_uuid header id get_export_job_detail

    unfoldable pub get_verify : Option Text → Text → M e VerifyAnswer
    get_verify header id = for_job is_uuid header id verify
