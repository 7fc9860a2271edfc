-- ===== src/Runner/Crash.antt =====
-- What a run leaves behind when calls fail or the process dies, at any point
-- (server/src/services/exportRunner.service.ts).
pub mod Batch
pub mod Rounds
pub mod Steps
pub mod Finish
pub mod Run
use export_vault.Prelude.{
  ℕ, ◌≤◌, ◌≡◌, ◌⊎◌, inl, inr, ◌∙◌, refl, sym, ap, some, List, [], ◌++◌, length, take, concat,
  append-nil, append_assoc,
}
use export_vault.Model.{RawRecordRow, ExportJob}
use export_vault.Result.{ok}
use export_vault.World.{Env, Db, World, arrive}
use export_vault.Jobs.{update_job}
use export_vault.Storage.{final_key}
use export_vault.Runner.Durable.{IsOpen, Frame}
use export_vault.Runner.Exact.File.{export_file}
use export_vault.Runner.Exact.Open.{KeepsTerms, arrive-IsOpen, update-IsOpen}

-- The batches `before` are still durable, and perhaps some more: the next run goes on behind them.
pub record Kept (e : Env) (job : ExportJob) (rows : List RawRecordRow)
    (before : List (List RawRecordRow)) (w : World e) : Type 0 where
  pub bs : List (List RawRecordRow)
  pub rest : List RawRecordRow
  pub more : List (List RawRecordRow)
  pub grown : bs ≡ before ++ more
  pub within : length (concat bs) ≤ job.requested_row_limit
  pub is_open : IsOpen e job rows bs rest w

-- The whole file is in the object store.
abbrev pub FileThere : (e : Env) → ExportJob → List RawRecordRow → World e → Type 0
FileThere e job rows w =
    e.get_object (final_key job.id) w.objects
    ≡ ok (some (export_file (take job.requested_row_limit rows)))

-- Nothing is lost.
abbrev pub Saved :
    (e : Env) → ExportJob → List RawRecordRow → List (List RawRecordRow) → World e → Type 0
Saved e job rows before w = Kept e job rows before w ⊎ FileThere e job rows w

module _ {e : Env} (job : ExportJob) (rows : List RawRecordRow)
    (frame : (n : ℕ) (d : Db) → Frame job d (e.others n d))
    (before : List (List RawRecordRow)) where
  pub arrive-Saved : (w : World e) → Saved e job rows before w → Saved e job rows before (arrive w)
  arrive-Saved w (inl k) = inl (record {
    bs = k.bs;
    rest = k.rest;
    more = k.more;
    grown = k.grown;
    within = k.within;
    is_open = arrive-IsOpen job rows frame k.bs k.rest w k.is_open;
  })
  arrive-Saved w (inr there) = inr there

  pub update-Saved :
      (f : ℕ → ExportJob → ExportJob) (w : World e)
      → KeepsTerms f
      → Saved e job rows before w
      → Saved e job rows before (record w { db = (update_job job.id f w.db).1 })
  update-Saved f w keeps (inl k) = inl (record {
    bs = k.bs;
    rest = k.rest;
    more = k.more;
    grown = k.grown;
    within = k.within;
    is_open = update-IsOpen job rows frame k.bs k.rest f w keeps k.is_open;
  })
  update-Saved f w keeps (inr there) = inr there
