-- ===== src/Client/Offers.antt =====
-- The actions that the page of an export offers, against those that the service takes
-- (client/src/pages/ExportDetailPage.tsx, server/src/services/export.service.ts).
use export_vault.Prelude.{◌≡◌, if◌then◌else◌, arith}
use export_vault.Model.{ExportJob}
use export_vault.Model.Errors.{
  ExportStatus, Message, conflict_error, nothing_to_resume, cancelled_for_good, cannot_resume_while,
  cannot_cancel_completed, cannot_cancel_while,
}
use export_vault.Model.Errors
use export_vault.World.{Env, World, thrown, returned, throw, pure, transact}
use export_vault.Jobs.{update_job, status_eq}
use export_vault.ExportService.{resume_owned, resume_steps, cancel_owned, to_cancel}
use export_vault.Client.Pages.{can_resume, can_cancel}

why_no_resume : ExportStatus → Message
why_no_resume Errors.completed = nothing_to_resume
why_no_resume Errors.cancelled = cancelled_for_good
why_no_resume s = cannot_resume_while s

why_no_cancel : ExportStatus → Message
why_no_cancel Errors.completed = cannot_cancel_completed
why_no_cancel s = cannot_cancel_while s

module _ {e : Env} (job : ExportJob) (w : World e) where
  -- The page offers to resume a job exactly where the service goes on to do it: for any other status
  -- the service refuses with a 409 and changes nothing. The page offers to cancel exactly where the
  -- service updates the row: for any other status the service refuses with a 409 and changes nothing,
  -- or returns a job that is cancelled already as it is.
  pub offers_agree :
      (m : Message) × (n : Message) × (resume_owned job w
        ≡ (if can_resume job.status then resume_steps job w else (thrown (conflict_error m), w)))
      × (cancel_owned job w ≡ (
          if can_cancel job.status
          then transact (update_job job.id (to_cancel (status_eq job.status Errors.running))) w
          else if status_eq job.status Errors.cancelled
          then (returned job, w)
          else (thrown (conflict_error n), w)))
  unfolding resume_owned cancel_owned throw pure why_no_resume why_no_cancel
  offers_agree = (why_no_resume job.status, why_no_cancel job.status, ground arith, ground arith)
