-- ===== src/Client/Pages.antt =====
-- client/src/pages/ExportDetailPage.tsx and DashboardPage.tsx: when the pages poll, and which actions
-- they offer.
use export_vault.Prelude.{Bool, false, ◌&&◌, [], ◌∷◌, Option, none, some}
use export_vault.Model.Errors.{ExportStatus}
use export_vault.Model.Errors
use export_vault.Jobs.{includes, status_eq}

-- LIVE_STATUSES.has(status)
abbrev pub is_live : ExportStatus → Bool
is_live s =
    includes
      (Errors.queued ∷ Errors.running ∷ Errors.resuming ∷ Errors.verifying ∷ Errors.pending ∷ []) s

abbrev pub can_resume : ExportStatus → Bool
can_resume s =
    includes
      (Errors.interrupted ∷ Errors.failed ∷ Errors.pending ∷ Errors.queued ∷ Errors.resuming ∷ []) s

abbrev pub can_cancel : ExportStatus → Bool
can_cancel s =
    includes
      (Errors.pending ∷ Errors.queued ∷ Errors.running ∷ Errors.resuming ∷ Errors.interrupted ∷ [])
      s

-- `job.verification?.status === 'PASSED'`, by whether the last verification passed
abbrev pub can_download : ExportStatus → Option Bool → Bool
can_download s none = false
can_download s (some passed) = status_eq s Errors.completed && passed
