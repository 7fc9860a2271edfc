-- ===== src/ExportService/Dashboard.antt =====
-- What the API shows of a user's jobs: the list, one job in detail, and the counters
-- (`listExportJobs`, `getExportJobDetail` and `getExportStats` of
-- server/src/services/export.service.ts).
pub mod Counters
pub mod Listed
use export_vault.Prelude.{
  ℕ, ◌+◌, Bool, Option, none, some, List, [], ◌∷◌, map, length, take, keep, concat, leb, ◌==◌,
  if◌then◌else◌,
}
use export_vault.Text.{Text, text_eq}
use export_vault.Model.{ExportJob, ExportFailure}
use export_vault.Model.Errors.{ExportStatus}
use export_vault.Model.Errors
use export_vault.World.{Env, M, ExportVerification, ◌>>=◌, pure, query}
use export_vault.Jobs.{status_eq}
use export_vault.Query.{order_by_desc}
use export_vault.ExportService.{get_owned_export_job, latest_verification}

-- WHERE user_id = …
abbrev pub of_user : Text → List ExportJob → List ExportJob
of_user user js = keep (λ j. text_eq j.user_id user) js

-- ORDER BY created_at DESC
unfoldable pub newest_first : List ExportJob → List ExportJob
unfolding order_by_desc
newest_first js = order_by_desc (λ j. j.created_at) js

-- The failures of a job; their log stands with the newest row first.
failures_of : Text → List ExportFailure → List ExportFailure
unfolding text_eq
failures_of id [] = []
failures_of id (f ∷ fs) =
    let rest = failures_of id fs in
    elim f.export_job_id [ none ↦ rest | some k ↦ if text_eq k id then f ∷ rest else rest ]

pub record JobDetail : Type 0 where
  pub job : ExportJob
  pub verification : Option ExportVerification
  pub failures : List ExportFailure
  pub checkpoint_count : ℕ

-- The groups of a GROUP BY status: those statuses that some job has.
abbrev pub all_statuses : List ExportStatus
all_statuses =
    Errors.pending ∷ Errors.queued ∷ Errors.running ∷ Errors.interrupted ∷ Errors.resuming
    ∷ Errors.verifying ∷ Errors.completed ∷ Errors.failed ∷ Errors.cancelled ∷ []

abbrev pub count_of : ExportStatus → List ExportJob → ℕ
count_of s js = length (keep (λ j. status_eq j.status s) js)

abbrev pub group : List ExportJob → ExportStatus → List (ExportStatus × ℕ)
group js s = if count_of s js == 0 then [] else (s, count_of s js) ∷ []

abbrev pub groups : List ExportStatus → List ExportJob → List (ExportStatus × ℕ)
groups ss js = concat (map (group js) ss)

abbrev pub group_by_status : List ExportJob → List (ExportStatus × ℕ)
group_by_status js = groups all_statuses js

-- byStatus[s] ?? 0
abbrev pub look_up : ExportStatus → List (ExportStatus × ℕ) → ℕ
look_up s [] = 0
look_up s ((t, n) ∷ gs) = if status_eq t s then n else look_up s gs

-- grouped.reduce((sum, g) => sum + g._count._all, 0)
abbrev pub total_of : List (ExportStatus × ℕ) → ℕ
total_of [] = 0
total_of ((t, n) ∷ gs) = n + total_of gs

-- SUM(exported_row_count) of the COMPLETED jobs
abbrev pub rows_exported : List ExportJob → ℕ
rows_exported [] = 0
rows_exported (j ∷ js) =
    let rest = rows_exported js in
    if status_eq j.status Errors.completed then j.exported_row_count + rest else rest

abbrev pub first_of : List ExportJob → Option ExportJob
first_of [] = none
first_of (j ∷ js) = some j

pub record Stats : Type 0 where
  pub total : ℕ
  pub completed : ℕ
  pub failed : ℕ
  pub running : ℕ
  pub interrupted : ℕ
  pub cancelled : ℕ
  pub total_rows_exported : ℕ
  pub by_status : List (ExportStatus × ℕ)
  pub latest : Option ExportJob

-- The answer out of what the three queries found.
unfoldable pub stats_of : List (ExportStatus × ℕ) → Option ExportJob → ℕ → Stats
stats_of grouped latest exported = record {
  total = total_of grouped;
  completed = look_up Errors.completed grouped;
  failed = look_up Errors.failed grouped;
  running =
      look_up Errors.running grouped
      + look_up Errors.queued grouped
      + look_up Errors.resuming grouped
      + look_up Errors.verifying grouped
      + look_up Errors.pending grouped;
  interrupted = look_up Errors.interrupted grouped;
  cancelled = look_up Errors.cancelled grouped;
  total_rows_exported = exported;
  by_status = grouped;
  latest = latest;
}

module _ {e : Env} where
  unfoldable pub list_export_jobs : Text → M e (List ExportJob)
  unfolding newest_first
  list_export_jobs user = query (λ d. take 100 (newest_first (of_user user d.jobs)))

  unfoldable pub get_export_job_detail : Text → Text → M e JobDetail
  unfolding failures_of get_owned_export_job latest_verification
  get_export_job_detail user id = do
    job ← get_owned_export_job user id
    verification ← query (λ d. latest_verification id d.verifications)
    failures ← query (λ d. take 10 (failures_of id d.failures))
    checkpoints ← query (λ d. length (keep (λ c. text_eq c.export_job_id id) d.checkpoints))
    pure (record {
      job = job;
      verification = verification;
      failures = failures;
      checkpoint_count = checkpoints;
    })

  unfoldable pub get_export_stats : Text → M e Stats
  unfolding newest_first stats_of
  get_export_stats user = do
    grouped ← query (λ d. group_by_status (of_user user d.jobs))
    latest ← query (λ d. first_of (newest_first (of_user user d.jobs)))
    exported ← query (λ d. rows_exported (of_user user d.jobs))
    pure (stats_of grouped latest exported)
