-- ===== src/Jobs.antt =====
-- The statements of the services on the table `export_jobs` (Prisma's findUnique, update, updateMany
-- and create), as functions on its rows. An update writes `updated_at` (`@updatedAt` of
-- server/prisma/schema.prisma), and an update of a row that is not there throws.

pub mod Laws
use export_vault.Prelude.{ℕ, Bool, Option, none, some, List, [], ◌∷◌, if◌then◌else◌}
use export_vault.Text.{Text, text_eq}
use export_vault.Model.{ExportJob}
use export_vault.Model.Errors.{ExportStatus, plain, foreign}
use export_vault.Model.Errors
use export_vault.Result.{Result, ok, err}
use export_vault.World.{Db}

unfoldable pub find_job : Text → List ExportJob → Option ExportJob
unfolding text_eq
find_job id [] = none
find_job id (j ∷ js) = if text_eq j.id id then some j else find_job id js

-- The rows with `f` at the job with that id that meets the condition. `id` is the primary key.
unfoldable pub set_job :
    Text → (ExportJob → Bool) → (ExportJob → ExportJob) → List ExportJob → List ExportJob
unfolding text_eq
set_job id p f [] = []
set_job id p f (j ∷ js) =
    let rest = set_job id p f js in
    if text_eq j.id id then (if p j then f j ∷ js else j ∷ js) else j ∷ rest

abbrev pub touched : ℕ → ExportJob → ExportJob
touched now j = record j { updated_at = now }

-- The number of a row that an update found missing in Prisma's list of errors.
abbrev pub p2025 : ℕ
p2025 = 2025

abbrev pub always : ExportJob → Bool
always j = Bool.true

-- prisma.exportJob.update: the new row, with what the time of the update gives
unfoldable pub update_job : Text → (ℕ → ExportJob → ExportJob) → Db → Result ExportJob × Db
unfolding find_job set_job
update_job id f d = elim (find_job id d.jobs) [
  | none ↦ (err (plain (foreign p2025)), d)
  | some j ↦
      let g = λ (x : ExportJob). touched d.now (f d.now x) in
      (ok (g j), record d { jobs = set_job id always g d.jobs })
]

-- prisma.exportJob.updateMany with a condition on one job: whether it was updated
unfoldable pub update_job_where :
    Text → (ℕ → ExportJob → Bool) → (ℕ → ExportJob → ExportJob) → Db → Result Bool × Db
unfolding find_job set_job
update_job_where id p f d = elim (find_job id d.jobs) [
  | none ↦ (ok Bool.false, d)
  | some j ↦
      let g = λ (x : ExportJob). touched d.now (f d.now x) in
      (ok (p d.now j), record d { jobs = set_job id (p d.now) g d.jobs })
]

abbrev pub status_eq : ExportStatus → ExportStatus → Bool
status_eq Errors.pending Errors.pending = Bool.true
status_eq Errors.queued Errors.queued = Bool.true
status_eq Errors.running Errors.running = Bool.true
status_eq Errors.interrupted Errors.interrupted = Bool.true
status_eq Errors.resuming Errors.resuming = Bool.true
status_eq Errors.verifying Errors.verifying = Bool.true
status_eq Errors.completed Errors.completed = Bool.true
status_eq Errors.failed Errors.failed = Bool.true
status_eq Errors.cancelled Errors.cancelled = Bool.true
status_eq _ _ = Bool.false

-- list.includes(status)
abbrev pub includes : List ExportStatus → ExportStatus → Bool
includes [] s = Bool.false
includes (t ∷ ts) s = if status_eq t s then Bool.true else includes ts s
