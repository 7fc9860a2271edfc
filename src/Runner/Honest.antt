-- ===== src/Runner/Honest.antt =====
-- What a COMPLETED job rests on, and what an update of a row keeps of it
-- (server/src/services/exportRunner.service.ts), whatever fails and whatever others do.
use export_vault.Prelude.{ℕ, ◌≡◌, ◌∙◌, sym, subst, Option, some, List, All, All-mono}
use export_vault.Text.{Text}
use export_vault.Model.{ExportJob}
use export_vault.Model.Errors
use export_vault.Result.{ok}
use export_vault.World.{Env, Db, World}
use export_vault.Jobs.{touched}
use export_vault.Storage.{final_key}
use export_vault.Verification.Verdict.{IsExport}

-- The store holds, under the key, bytes that csv-parse reads as an export of that many rows below that
-- boundary.
pub record FileAt (e : Env) (key : Text) (rows snapshot : ℕ) (o : e.Objects) : Type 0 where
  pub body : List ℕ
  pub cells : List (List Text)
  pub there : e.get_object key o ≡ ok (some body)
  pub parsed : e.parse body ≡ ok cells
  pub complete : IsExport rows snapshot cells

-- What a row names as its file is the final key of the job, under which the store holds its export.
abbrev pub Filed : (e : Env) → ExportJob → e.Objects → Option Text → Type 0
Filed e job o key =
    (key ≡ some (final_key job.id))
    × FileAt e (final_key job.id) job.requested_row_limit job.snapshot_max_id o

-- A row with the id of `job` has its number of rows and its boundary, and is COMPLETED only with a
-- file key of which `C` holds.
pub record RowOk (C : Option Text → Type 0) (job j : ExportJob) : Type 0 where
  pub honest : j.id ≡ job.id → j.status ≡ Errors.completed → C j.file_key
  pub same_rows : j.id ≡ job.id → j.requested_row_limit ≡ job.requested_row_limit
  pub same_snapshot : j.id ≡ job.id → j.snapshot_max_id ≡ job.snapshot_max_id

abbrev pub RowsOk : (Option Text → Type 0) → ExportJob → Db → Type 0
RowsOk C job d = All (RowOk C job) d.jobs

pub RowsOk-mono :
    (C D : Option Text → Type 0) (job : ExportJob) (d : Db)
    → ((key : Option Text) → C key → D key)
    → RowsOk C job d
    → RowsOk D job d
RowsOk-mono C D job d weaken =
    All-mono (RowOk C job) (RowOk D job)
      (λ j h. record {
        honest = λ same done. weaken j.file_key (h.honest same done);
        same_rows = h.same_rows;
        same_snapshot = h.same_snapshot;
      })
      d.jobs

-- No row of the job is COMPLETED.
abbrev pub NotCompleted : ExportJob → Db → Type 0
NotCompleted job d = RowsOk (λ key. ⊥) job d

-- The job is COMPLETED only with its export in the store, under the key that its row names.
abbrev pub CompletedOk : (e : Env) → ExportJob → World e → Type 0
CompletedOk e job w = RowsOk (Filed e job w.objects) job w.db

-- The other processes complete no row of the job, and change neither the file key of a COMPLETED one
-- nor what was ordered.
abbrev pub Respects : Env → ExportJob → Type 1
Respects e job =
    (C : Option Text → Type 0) (n : ℕ) (d : Db) → RowsOk C job d → RowsOk C job (e.others n d)

-- What an update may do to a row: it keeps the row's own data, and completes nothing.
pub record KeepsRow (f : ℕ → ExportJob → ExportJob) : Type 0 where
  pub id : (now : ℕ) (j : ExportJob) → (f now j).id ≡ j.id
  pub rows : (now : ℕ) (j : ExportJob) → (f now j).requested_row_limit ≡ j.requested_row_limit
  pub snapshot : (now : ℕ) (j : ExportJob) → (f now j).snapshot_max_id ≡ j.snapshot_max_id
  pub file : (now : ℕ) (j : ExportJob) → (f now j).file_key ≡ j.file_key
  pub status :
      (now : ℕ) (j : ExportJob) → (f now j).status ≡ Errors.completed → j.status ≡ Errors.completed

module _ (C : Option Text → Type 0) (job : ExportJob) (f : ℕ → ExportJob → ExportJob)
    (k : KeepsRow f) where
  pub KeepsRow-RowOk :
      (now : ℕ) (j : ExportJob) → RowOk C job j → RowOk C job (touched now (f now j))
  KeepsRow-RowOk now j h = record {
    honest =
        λ i c. subst C (sym (k.file now j)) (h.honest (sym (k.id now j) ∙ i) (k.status now j c));
    same_rows = λ i. k.rows now j ∙ h.same_rows (sym (k.id now j) ∙ i);
    same_snapshot = λ i. k.snapshot now j ∙ h.same_snapshot (sym (k.id now j) ∙ i);
  }
