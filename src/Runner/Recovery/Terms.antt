-- ===== src/Runner/Recovery/Terms.antt =====
-- What is durable belongs to the order, not to the row: it may be read off any row that still says
-- what was ordered (server/src/services/exportRunner.service.ts).
use export_vault.Prelude.{ℕ, ◌≡◌, ◌∙◌, sym, ap, subst, Option, some, List, take, arith}
use export_vault.Model.{RawRecordRow, ExportJob}
use export_vault.Result.{ok}
use export_vault.World.{Env, Db, World, Fault}
use export_vault.World.Laws.{IsStore}
use export_vault.Records.Eligible.{eligible}
use export_vault.Resume.{checkpoints_of}
use export_vault.Jobs.{find_job}
use export_vault.Storage.{final_key}
use export_vault.Runner.Durable.{Durable, IsOpen, HasTerms, Frame, Stored, log_of}
use export_vault.Runner.Exact.File.{export_file}
use export_vault.Runner.Exact.Finish.{IsExported}
use export_vault.Runner.Crash.{Kept, FileThere}
use export_vault.Runner.Recovery.Attempt.{with_faults, enter, leave}

pub HasTerms-sym : (job row : ExportJob) → HasTerms job row → HasTerms row job
HasTerms-sym job row h = record {
  same_id = sym h.same_id;
  same_boundary = sym h.same_boundary;
  same_limit = sym h.same_limit;
  same_size = sym h.same_size;
  same_flag = sym h.same_flag;
}

pub HasTerms-trans : (i j k : ExportJob) → HasTerms i j → HasTerms j k → HasTerms i k
HasTerms-trans i j k h g = record {
  same_id = g.same_id ∙ h.same_id;
  same_boundary = g.same_boundary ∙ h.same_boundary;
  same_limit = g.same_limit ∙ h.same_limit;
  same_size = g.same_size ∙ h.same_size;
  same_flag = g.same_flag ∙ h.same_flag;
}

module _ (job row : ExportJob) (h : HasTerms job row) where
  pub Frame-terms : (d d' : Db) → Frame job d d' → Frame row d d'
  Frame-terms d d' s = record {
    same_job = subst (λ id. find_job id d'.jobs ≡ find_job id d.jobs) (sym h.same_id) s.same_job;
    same_log =
        subst (λ id. checkpoints_of id d'.checkpoints ≡ checkpoints_of id d.checkpoints)
          (sym h.same_id) s.same_log;
    same_snapshot =
        subst (λ n. eligible n d'.records ≡ eligible n d.records) (sym h.same_boundary)
          s.same_snapshot;
  }

  module _ {e : Env} (rows : List RawRecordRow) where
    pub Durable-terms :
        (bs : List (List RawRecordRow)) (rest : List RawRecordRow) (w : World e)
        → Durable e job rows bs rest w
        → Durable e row rows bs rest w
    Durable-terms bs rest w d = record {
      logged =
          subst (λ id. checkpoints_of id w.db.checkpoints ≡ log_of id 1 bs) (sym h.same_id)
            d.logged;
      snapshot = subst (λ n. eligible n w.db.records ≡ rows) (sym h.same_boundary) d.snapshot;
      whole = d.whole;
      filled = d.filled;
      stored = subst (λ id. Stored e id 1 bs w.objects) (sym h.same_id) d.stored;
    }

    pub FileThere-terms : (w : World e) → FileThere e job rows w → FileThere e row rows w
    FileThere-terms w there =
        subst
          (λ id.
            e.get_object (final_key id) w.objects
            ≡ ok (some (export_file (take row.requested_row_limit rows))))
          (sym h.same_id)
          (there ∙ ap (λ n. ok (some (export_file (take n rows)))) (sym h.same_limit))

    pub IsOpen-terms :
        (bs : List (List RawRecordRow)) (rest : List RawRecordRow) (w : World e)
        → IsOpen e job rows bs rest w
        → IsOpen e row rows bs rest w
    IsOpen-terms bs rest w o = record {
      durable = Durable-terms bs rest w o.durable;
      row = o.row;
      found = subst (λ id. find_job id w.db.jobs ≡ some o.row) (sym h.same_id) o.found;
      terms = HasTerms-trans row job o.row (HasTerms-sym job row h) o.terms;
      wanted = o.wanted;
    }

    pub Kept-terms :
        (before : List (List RawRecordRow)) (w : World e)
        → Kept e job rows before w
        → Kept e row rows before w
    Kept-terms before w k = record {
      bs = k.bs;
      rest = k.rest;
      more = k.more;
      grown = k.grown;
      within = omega (arith, k.within, h.same_limit);
      is_open = IsOpen-terms k.bs k.rest w k.is_open;
    }

    pub IsExported-terms : (w : World e) → IsExported e job rows w → IsExported e row rows w
    IsExported-terms w x = record {
      row = x.row;
      found = subst (λ id. find_job id w.db.jobs ≡ some x.row) (sym h.same_id) x.found;
      is_completed = x.is_completed;
      names_file = x.names_file ∙ ap (λ id. some (final_key id)) (sym h.same_id);
      file = FileThere-terms w x.file;
    }

-- The laws of the store and what is durable do not depend on the faults of a process.
module _ {e : Env} (f : ℕ → Option Fault) (crash : Option ℕ) where
  pub IsStore-with_faults : IsStore e → IsStore (with_faults f crash e)
  IsStore-with_faults s = record {
    get-put = s.get-put;
    get-put_ne = s.get-put_ne;
    get-upload = s.get-upload;
    get-upload_ne = s.get-upload_ne;
    head = s.head;
    get-delete_ne = s.get-delete_ne;
    listed = s.listed;
  }

  module _ (job : ExportJob) (rows : List RawRecordRow) where
    pub Durable-enter :
        (bs : List (List RawRecordRow)) (rest : List RawRecordRow) (w : World e)
        → Durable e job rows bs rest w
        → Durable (with_faults f crash e) job rows bs rest (enter f crash w)
    Durable-enter bs rest w d = record {
      logged = d.logged;
      snapshot = d.snapshot;
      whole = d.whole;
      filled = d.filled;
      stored = d.stored;
    }

    pub Kept-leave :
        (before : List (List RawRecordRow)) (w : World (with_faults f crash e))
        → Kept (with_faults f crash e) job rows before w
        → Kept e job rows before (leave f crash w)
    Kept-leave before w k =
        let o = k.is_open in
        record {
          bs = k.bs;
          rest = k.rest;
          more = k.more;
          grown = k.grown;
          within = k.within;
          is_open = record {
            durable = record {
              logged = o.durable.logged;
              snapshot = o.durable.snapshot;
              whole = o.durable.whole;
              filled = o.durable.filled;
              stored = o.durable.stored;
            };
            row = o.row;
            found = o.found;
            terms = o.terms;
            wanted = o.wanted;
          };
        }
