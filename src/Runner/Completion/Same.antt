-- ===== src/Runner/Completion/Same.antt =====
-- The row that a run finds has the number of rows and the boundary that were ordered
-- (server/src/services/exportRunner.service.ts), so that what holds of it holds of the order.
use export_vault.Prelude.{
  ◌≡◌, sym, ◌∙◌, ap, subst, Option, none, some, inl, inr, Option-cases, All-mono,
}
use export_vault.Text.{Text}
use export_vault.Model.{ExportJob}
use export_vault.World.{Env, Db, World}
use export_vault.Jobs.{find_job}
use export_vault.Jobs.Laws.{find_job-All}
use export_vault.Storage.{final_key}
use export_vault.Runner.Honest.{
  FileAt, Filed, RowOk, RowsOk, RowsOk-mono, NotCompleted, CompletedOk, Respects,
}

-- Two jobs with the same id, number of rows and boundary.
pub record IsSame (j job : ExportJob) : Type 0 where
  pub id : j.id ≡ job.id
  pub rows : j.requested_row_limit ≡ job.requested_row_limit
  pub snapshot : j.snapshot_max_id ≡ job.snapshot_max_id

IsSame-sym : {j job : ExportJob} → IsSame j job → IsSame job j
IsSame-sym s = record { id = sym s.id; rows = sym s.rows; snapshot = sym s.snapshot }

pub RowsOk-same :
    (C : Option Text → Type 0) {j job : ExportJob} (d : Db)
    → IsSame j job
    → RowsOk C job d
    → RowsOk C j d
RowsOk-same C {j} {job} d s =
    All-mono (RowOk C job) (RowOk C j)
      (λ k h. record {
        honest = λ i. h.honest (i ∙ s.id);
        same_rows = λ i. h.same_rows (i ∙ s.id) ∙ sym s.rows;
        same_snapshot = λ i. h.same_snapshot (i ∙ s.id) ∙ sym s.snapshot;
      })
      d.jobs

Filed-same :
    (e : Env) {j job : ExportJob} (o : e.Objects) (key : Option Text)
    → IsSame j job
    → Filed e j o key
    → Filed e job o key
Filed-same e {j} {job} o key s (named, file) = (
  named ∙ ap (λ id. some (final_key id)) s.id,
  subst (λ n. FileAt e (final_key job.id) job.requested_row_limit n o) s.snapshot
      (subst (λ n. FileAt e (final_key job.id) n j.snapshot_max_id o) s.rows
        (subst (λ id. FileAt e (final_key id) j.requested_row_limit j.snapshot_max_id o) s.id
          file)),
)

pub Respects-same : (e : Env) {j job : ExportJob} → IsSame j job → Respects e job → Respects e j
Respects-same e s rely C n d h =
    RowsOk-same C (e.others n d) s (rely C n d (RowsOk-same C d (IsSame-sym s) h))

pub CompletedOk-same :
    (e : Env) {j job : ExportJob} (w : World e)
    → IsSame j job
    → CompletedOk e j w
    → CompletedOk e job w
CompletedOk-same e {j} {job} w s h =
    RowsOk-mono (Filed e j w.objects) (Filed e job w.objects) job w.db
      (λ key. Filed-same e w.objects key s)
      (RowsOk-same (Filed e j w.objects) w.db (IsSame-sym s) h)

abbrev pub FoundOk : ExportJob → Option ExportJob → Type 0
FoundOk job none = Unit
FoundOk job (some j) = IsSame j job

pub found_ok :
    (job : ExportJob) (d : Db) → NotCompleted job d → FoundOk job (find_job job.id d.jobs)
found_ok job d i = elim (Option-cases (find_job job.id d.jobs)) [
  | inl missing ↦ rw missing tt
  | inr (j, found) ↦
      let (row_ok, same) = find_job-All (RowOk (λ key. ⊥) job) job.id d.jobs j found i in
      rw found
        (record { id = same; rows = row_ok.same_rows same; snapshot = row_ok.same_snapshot same })
]
