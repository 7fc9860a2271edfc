-- ===== src/Runner/Exact/Open.antt =====
-- What keeps a job open: the steps of the other processes, and updates of its row that keep its id
-- and its flag (server/src/services/exportRunner.service.ts).
use export_vault.Prelude.{
  ℕ, ◌≡◌, ◌∙◌, refl, ap, Bool, true, false, none, List, ◌++◌, concat, if◌then◌else◌,
}
use export_vault.Model.{RawRecordRow, ExportJob}
use export_vault.Records.Eligible.{eligible}
use export_vault.Resume.{checkpoints_of}
use export_vault.World.{Env, Db, World, transact, arrive}
use export_vault.World.Runs.{Runs, Runs-known, Runs-query, Runs-lift, Runs-transact}
use export_vault.Jobs.{find_job, update_job, touched}
use export_vault.Jobs.Laws.{update_job_found}
use export_vault.Runner.Durable.{HasTerms, IsOpen, IsSnapshot, Frame, Stored, log_of}
use export_vault.Runner.Durable.Log.{load_resume_state-log_of}
use export_vault.Runner.Steps.{load_state}
use export_vault.Resume.Valid.{position_of}
use export_vault.Result.{ok}

-- What an update may do to the row of a job that is open.
abbrev pub KeepsTerms : (ℕ → ExportJob → ExportJob) → Type 0
KeepsTerms f = (now : ℕ) (j : ExportJob) → HasTerms j (f now j)

pub HasTerms-update :
    (job row : ExportJob) (f : ℕ → ExportJob → ExportJob) (now : ℕ)
    → KeepsTerms f
    → HasTerms job row
    → HasTerms job (touched now (f now row))
HasTerms-update job row f now keeps h =
    let t = keeps now row in
    record {
      same_id = t.same_id ∙ h.same_id;
      same_boundary = t.same_boundary ∙ h.same_boundary;
      same_limit = t.same_limit ∙ h.same_limit;
      same_size = t.same_size ∙ h.same_size;
      same_flag = t.same_flag ∙ h.same_flag;
    }

pub HasTerms-update_where :
    (job row : ExportJob) (f : ℕ → ExportJob → ExportJob) (now : ℕ) (b : Bool)
    → KeepsTerms f
    → HasTerms job row
    → HasTerms job (if b then touched now (f now row) else row)
HasTerms-update_where job row f now true keeps h = HasTerms-update job row f now keeps h
HasTerms-update_where job row f now false keeps h = h

module _ {e : Env} (job : ExportJob) (rows : List RawRecordRow)
    (frame : (n : ℕ) (d : Db) → Frame job d (e.others n d)) (bs : List (List RawRecordRow))
    (rest : List RawRecordRow) where
  -- Tables with the same jobs, checkpoints and records, and objects that hold the chunks too.
  pub same_tables-IsOpen :
      (w w' : World e)
      → w'.db.jobs ≡ w.db.jobs
      → w'.db.checkpoints ≡ w.db.checkpoints
      → w'.db.records ≡ w.db.records
      → Stored e job.id 1 bs w'.objects
      → IsOpen e job rows bs rest w
      → IsOpen e job rows bs rest w'
  same_tables-IsOpen w w' jobs checkpoints records stored o = record {
    durable = record {
      logged = ap (checkpoints_of job.id) checkpoints ∙ o.durable.logged;
      snapshot = ap (eligible job.snapshot_max_id) records ∙ o.durable.snapshot;
      whole = o.durable.whole;
      filled = o.durable.filled;
      stored = stored;
    };
    row = o.row;
    found = ap (find_job job.id) jobs ∙ o.found;
    terms = o.terms;
    wanted = o.wanted;
  }

  -- The steps of the other processes keep a job open.
  pub arrive-IsOpen :
      (w : World e) → IsOpen e job rows bs rest w → IsOpen e job rows bs rest (arrive w)
  arrive-IsOpen w o =
      let same = frame w.calls w.db in
      record {
        durable = record {
          logged = same.same_log ∙ o.durable.logged;
          snapshot = same.same_snapshot ∙ o.durable.snapshot;
          whole = o.durable.whole;
          filled = o.durable.filled;
          stored = o.durable.stored;
        };
        row = o.row;
        found = same.same_job ∙ o.found;
        terms = o.terms;
        wanted = o.wanted;
      }

  -- Tables that differ in the job's row alone, which keeps its flag.
  pub update-IsOpen :
      (f : ℕ → ExportJob → ExportJob) (w : World e)
      → KeepsTerms f
      → IsOpen e job rows bs rest w
      → IsOpen e job rows bs rest (record w { db = (update_job job.id f w.db).1 })
  update-IsOpen f w keeps o =
      let (done, there, others) =
        update_job_found job.id f w.db o.row o.found (keeps w.db.now o.row).same_id in
      record {
        durable = record {
          logged = ap (λ (d : Db). checkpoints_of job.id d.checkpoints) others ∙ o.durable.logged;
          snapshot =
              ap (λ (d : Db). eligible job.snapshot_max_id d.records) others ∙ o.durable.snapshot;
          whole = o.durable.whole;
          filled = o.durable.filled;
          stored = o.durable.stored;
        };
        row = touched w.db.now (f w.db.now o.row);
        found = there;
        terms = HasTerms-update job o.row f w.db.now keeps o.terms;
        wanted = (keeps w.db.now o.row).same_flag ∙ o.wanted;
      }

  module _ (quiet : (n : ℕ) → e.fault n ≡ none) where
    pub update-Runs :
        (f : ℕ → ExportJob → ExportJob)
        → KeepsTerms f
        → Runs {e = e}
            (IsOpen e job rows bs rest)
            (λ _ w. IsOpen e job rows bs rest w)
            (transact (update_job job.id f))
    update-Runs f keeps =
        Runs-transact quiet (IsOpen e job rows bs rest) arrive-IsOpen _ (update_job job.id f)
          (λ w o. (
            touched w.db.now (f w.db.now o.row),
            (update_job_found job.id f w.db o.row o.found (keeps w.db.now o.row).same_id).0,
            update-IsOpen f w keeps o,
          ))

    -- The log of an open job is accepted.
    pub load_state-Runs :
        concat bs ++ rest ≡ rows
        → IsSnapshot rows
        → Runs {e = e}
            (IsOpen e job rows bs rest)
            (λ s w. (s ≡ position_of (log_of job.id 1 bs)) × IsOpen e job rows bs rest w)
            (load_state job.id)
    unfolding load_state
    load_state-Runs whole snapshot =
        Runs-known (IsOpen e job rows bs rest) (ok (position_of (log_of job.id 1 bs)))
          (IsOpen e job rows bs rest) _ _ _
          (Runs-query quiet (IsOpen e job rows bs rest) arrive-IsOpen _ _ (λ w o. (
            load_resume_state-log_of job.id bs rest o.durable.filled (rw whole snapshot.positive)
                (rw whole snapshot.ascending) w.db.checkpoints o.durable.logged,
            o,
          )))
          (Runs-lift (IsOpen e job rows bs rest) _ _ (position_of (log_of job.id 1 bs)) refl
            (λ w o. (refl, o)))
