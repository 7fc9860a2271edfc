-- ===== src/ExportService/Dashboard/Counters.antt =====
-- The counters add up (`getExportStats` of server/src/services/export.service.ts).
use export_vault.Prelude.{
  ℕ, suc, ◌+◌, ◌≡◌, ◌∙◌, refl, sym, ap, true, Bool-cases, inl, inr, Option, List, [], ◌∷◌, arith,
  length, if◌then◌else◌,
}
use export_vault.Model.{ExportJob}
use export_vault.Model.Errors.{ExportStatus}
use export_vault.Model.Errors
use export_vault.Jobs.{status_eq, includes}
use export_vault.Jobs.Laws.{status_eq_sound}
use export_vault.ExportService.Dashboard.{
  all_statuses, count_of, groups, group_by_status, look_up, total_of, stats_of,
}

module _ (js : List ExportJob) where
  sum_of : List ExportStatus → ℕ
  sum_of [] = 0
  sum_of (s ∷ ss) = count_of s js + sum_of ss

  total_of-groups : (ss : List ExportStatus) → total_of (groups ss js) ≡ sum_of ss
  unfolding sum_of
  total_of-groups [] = refl
  total_of-groups (s ∷ ss) = ground (arith, total_of-groups ss)

  look_up-groups :
      (s : ExportStatus) (ss : List ExportStatus)
      → look_up s (groups ss js) ≡ (if includes ss s then count_of s js else 0)
  look_up-groups s [] = refl
  look_up-groups s (t ∷ ss) = elim (Bool-cases (status_eq t s)) [
    | inl same ↦
        let t_is_s : t ≡ s = status_eq_sound t s same in
        ground (arith, look_up-groups s ss, ap (λ u. count_of u js) t_is_s)
    | inr other ↦ ground (arith, look_up-groups s ss)
  ]

-- Every job has one of the nine statuses.
sum_of-all : (js : List ExportJob) → sum_of js all_statuses ≡ length js
unfolding sum_of
sum_of-all [] = refl
sum_of-all (j ∷ js) = by_status j.status (sum_of-all js)
  where
    by_status :
        (s : ExportStatus)
        → sum_of js all_statuses ≡ length js
        → sum_of (record j { status = s } ∷ js) all_statuses ≡ suc (length js)
    by_status Errors.pending h = omega (arith, h)
    by_status Errors.queued h = omega (arith, h)
    by_status Errors.running h = omega (arith, h)
    by_status Errors.interrupted h = omega (arith, h)
    by_status Errors.resuming h = omega (arith, h)
    by_status Errors.verifying h = omega (arith, h)
    by_status Errors.completed h = omega (arith, h)
    by_status Errors.failed h = omega (arith, h)
    by_status Errors.cancelled h = omega (arith, h)

is_status : (s : ExportStatus) → includes all_statuses s ≡ true
is_status s = ground arith

look_up_counted :
    (js : List ExportJob) (s : ExportStatus) → look_up s (group_by_status js) ≡ count_of s js
look_up_counted js s =
    look_up-groups js s all_statuses ∙ ap (λ b. if b then count_of s js else 0) (is_status s)

adds_up :
    (js : List ExportJob)
    → count_of Errors.completed js
        + count_of Errors.failed js
        + (count_of Errors.running js
            + count_of Errors.queued js
            + count_of Errors.resuming js
            + count_of Errors.verifying js
            + count_of Errors.pending js)
        + count_of Errors.interrupted js
        + count_of Errors.cancelled js
      ≡ sum_of js all_statuses
unfolding sum_of
adds_up js = omega arith

-- Of any jobs of a user, the counters of the answer (completed, failed, running, interrupted and
-- cancelled, where PENDING, QUEUED, RESUMING and VERIFYING jobs count as running) add up to its
-- total, and the total is the number of the jobs.
pub stats_add_up :
    (js : List ExportJob) (latest : Option ExportJob) (exported : ℕ)
    → let s = stats_of (group_by_status js) latest exported in
      (s.completed + s.failed + s.running + s.interrupted + s.cancelled ≡ s.total)
      × (s.total ≡ length js)
unfolding stats_of
stats_add_up js latest exported =
    let found = look_up_counted js in
    (
      rw
          (
            found Errors.completed,
            found Errors.failed,
            found Errors.running,
            found Errors.queued,
            found Errors.resuming,
            found Errors.verifying,
            found Errors.pending,
            found Errors.interrupted,
            found Errors.cancelled,
          )
          (adds_up js ∙ sym (total_of-groups js all_statuses)),
      total_of-groups js all_statuses ∙ sum_of-all js,
    )
