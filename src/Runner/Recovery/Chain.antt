-- ===== src/Runner/Recovery/Chain.antt =====
-- A job over several attempts: nothing is lost, and a run that nothing disturbs finishes it
-- (server/src/services/exportRunner.service.ts).
use export_vault.Prelude.{
  ℕ, ◌≤◌, ◌≡◌, ◌⊎◌, inl, inr, ◌∙◌, sym, ap, subst, false, true, Option, some, List, [], ◌++◌,
  length, concat, arith, append-nil, append_assoc,
}
use export_vault.Model.{RawRecordRow, ExportJob}
use export_vault.World.{Env, Db, World, Fault, returned}
use export_vault.World.Laws.{IsStore, IsWilling, IsParser}
use export_vault.Jobs.{find_job, includes}
use export_vault.Runner.{run_export_job, completed}
use export_vault.Runner.Steps.{resumable_statuses}
use export_vault.Runner.Durable.{Durable, IsSnapshot, HasTerms, HasTerms-refl, Frame}
use export_vault.Runner.Exact.Finish.{IsExported}
use export_vault.Runner.Exact.Run.{IsUndisturbed, IsRunnable, run_export_job-exact}
use export_vault.Runner.Crash.{Kept, Saved, FileThere}
use export_vault.Runner.Crash.Run.{run_export_job-Saved}
use export_vault.Runner.Recovery.Attempt.{
  Attempts, begin, run, between, Between, attempt, enter, with_faults,
}
use export_vault.Runner.Recovery.Terms.{
  HasTerms-sym, HasTerms-trans, Frame-terms, Durable-terms, Kept-terms, FileThere-terms,
  IsExported-terms, IsStore-with_faults, Durable-enter, Kept-leave,
}

-- One of the attempts of the chain has put the whole file into the store.
unfoldable pub Written :
    {e : Env} (job : ExportJob) (rows : List RawRecordRow) {w v : World e}
    → Attempts e job w v
    → Type 0
Written job rows begin = ⊥
Written {e} job rows (run {v} chain f crash) =
    Written job rows chain ⊎ FileThere e job rows (attempt f crash job.id v)
Written job rows (between chain d b) = Written job rows chain

module _ {e : Env} (job : ExportJob) (rows : List RawRecordRow) (before : List (List RawRecordRow))
    (w : World e) (store : IsStore e) (frame : (n : ℕ) (d : Db) → Frame job d (e.others n d))
    (snapshot : IsSnapshot rows) (wanted : job.cancel_requested ≡ false) where
  -- What was durable before a run that grew what an earlier one had kept.
  grown-Kept :
      (bs more : List (List RawRecordRow)) (v : World e)
      → bs ≡ before ++ more
      → Kept e job rows bs v
      → Kept e job rows before v
  grown-Kept bs more v grown k = record {
    bs = k.bs;
    rest = k.rest;
    more = more ++ k.more;
    grown = k.grown ∙ ap (λ t. t ++ k.more) grown ∙ append_assoc before more k.more;
    within = k.within;
    is_open = k.is_open;
  }

  run-Kept :
      (v : World e) (k : Kept e job rows before v) (f : ℕ → Option Fault) (crash : Option ℕ)
      → Saved e job rows before (attempt f crash job.id v)
  run-Kept v k f crash = elim saved [
    | inl kept ↦ inl (
        grown-Kept k.bs k.more _ k.grown
          (Kept-terms row job back rows k.bs _ (Kept-leave f crash row rows k.bs _ kept)))
    | inr there ↦ inr (FileThere-terms row job back {e = e} rows (attempt f crash job.id v) there)
  ]
    where
      row : ExportJob
      row = k.is_open.row

      terms : HasTerms job row
      terms = k.is_open.terms

      back : HasTerms row job
      back = HasTerms-sym job row terms

      saved :
          Saved
            (with_faults f crash e)
            row
            rows
            k.bs
            (run_export_job {e = with_faults f crash e} job.id (enter f crash v)).1
      saved =
          subst
            (λ id.
              Saved (with_faults f crash e) row rows k.bs
                (run_export_job {e = with_faults f crash e} id (enter f crash v)).1)
            terms.same_id
            (run_export_job-Saved {e = with_faults f crash e} row rows k.bs k.rest (enter f crash v)
              (IsStore-with_faults f crash store)
              (λ n d. Frame-terms job row terms d (e.others n d) (frame n d)) snapshot
              (terms.same_flag ∙ wanted) (omega (arith, k.within, terms.same_limit))
              (Durable-enter f crash row rows k.bs k.rest v
                (Durable-terms job row terms rows k.bs k.rest v k.is_open.durable))
              (subst (λ id. find_job id v.db.jobs ≡ some row) (sym terms.same_id) k.is_open.found))

  Between-Kept :
      (v : World e) (d : Db)
      → Between job v.db d
      → Kept e job rows before v
      → Kept e job rows before (record v { db = d })
  Between-Kept v d b k =
      let (row, found, terms) = b.row_kept k.is_open.row k.is_open.found in
      record {
        bs = k.bs;
        rest = k.rest;
        more = k.more;
        grown = k.grown;
        within = k.within;
        is_open = record {
          durable = record {
            logged = b.same_log ∙ k.is_open.durable.logged;
            snapshot = b.same_snapshot ∙ k.is_open.durable.snapshot;
            whole = k.is_open.durable.whole;
            filled = k.is_open.durable.filled;
            stored = k.is_open.durable.stored;
          };
          row = row;
          found = found;
          terms = HasTerms-trans job k.is_open.row row k.is_open.terms terms;
          wanted = terms.same_flag ∙ k.is_open.wanted;
        };
      }

  Attempts-Saved :
      Kept e job rows before w
      → {v : World e} (chain : Attempts e job w v)
      → Kept e job rows before v ⊎ Written job rows chain
  unfolding Written
  Attempts-Saved k begin = inl k
  Attempts-Saved k (run {v} chain f crash) = elim (Attempts-Saved k chain) [
    | inl k' ↦ elim (run-Kept v k' f crash) [ inl k'' ↦ inl k'' | inr there ↦ inr (inr there) ]
    | inr written ↦ inr (inl written)
  ]
  Attempts-Saved k (between {v} chain d b) = elim (Attempts-Saved k chain) [
    | inl k' ↦ inl (Between-Kept v d b k')
    | inr written ↦ inr written
  ]

-- Let the batches `before`, the first rows of the job's snapshot, be durable, let nobody have asked to
-- cancel the job, and let the store keep what it is sent and the other processes keep what belongs to
-- the job. Whatever attempts at the job are then made, each with faults and a crash
-- point of its own, and whatever happens to the job's row between them that keeps what was ordered,
-- the batches `before` stay durable, perhaps with more, or one of these attempts has put the whole
-- file into the store.
pub Attempts-Kept :
    {e : Env} (job : ExportJob) (rows : List RawRecordRow) (before : List (List RawRecordRow))
    (rest : List RawRecordRow) (w : World e) {v : World e}
    → IsStore e
    → ((n : ℕ) (d : Db) → Frame job d (e.others n d))
    → IsSnapshot rows
    → job.cancel_requested ≡ false
    → length (concat before) ≤ job.requested_row_limit
    → Durable e job rows before rest w
    → find_job job.id w.db.jobs ≡ some job
    → (chain : Attempts e job w v) → Kept e job rows before v ⊎ Written job rows chain
Attempts-Kept job rows before rest w store frame snapshot wanted within durable found chain =
    Attempts-Saved job rows before w store frame snapshot wanted
      (record {
        bs = before;
        rest = rest;
        more = [];
        grown = sym (append-nil before);
        within = within;
        is_open = record {
          durable = durable;
          row = job;
          found = found;
          terms = HasTerms-refl job;
          wanted = wanted;
        };
      })
      chain

-- Let the batches `before` be durable and nobody have asked to cancel the job; let any attempts at it
-- be made, each with faults and a crash point of its own, behind which its row is in a status that a
-- run resumes. If the store keeps and accepts what it is sent, the other processes keep what belongs
-- to the job, csv-parse reads what RFC 4180
-- describes, the batch size is positive and the snapshot has the rows asked for, then one more run,
-- in which no call fails and no crash is set, ends with COMPLETED and the exact file of an export that
-- was never interrupted; unless one of these attempts has put that file into the store already.
pub recovered_run-exact :
    {e : Env} (job : ExportJob) (rows : List RawRecordRow) (before : List (List RawRecordRow))
    (rest : List RawRecordRow) (w : World e) {v : World e} (row : ExportJob)
    → IsStore e
    → IsWilling e
    → IsParser e
    → IsUndisturbed e job
    → IsSnapshot rows
    → IsRunnable job rows
    → length (concat before) ≤ job.requested_row_limit
    → Durable e job rows before rest w
    → find_job job.id w.db.jobs ≡ some job
    → (chain : Attempts e job w v) → find_job job.id v.db.jobs ≡ some row
    → includes resumable_statuses row.status ≡ true
    → (((run_export_job job.id v).0 ≡ returned (completed job.requested_row_limit))
        × IsExported e job rows (run_export_job job.id v).1)
      ⊎ Written job rows chain
recovered_run-exact {e} job rows before rest w {v} row store willing parser u snapshot r within
      durable found chain there resumable =
    elim (Attempts-Kept job rows before rest w store u.frame snapshot r.wanted within durable found
      chain) [
        | inr written ↦ inr written
        | inl k ↦ inl (
            let same : some k.is_open.row ≡ some row = sym k.is_open.found ∙ there in
            let same_row : k.is_open.row ≡ row = cc in
            let terms : HasTerms job row = subst (HasTerms job) same_row k.is_open.terms in
            let back : HasTerms row job = HasTerms-sym job row terms in
            let runnable : IsRunnable row rows = record {
              size = omega (arith, r.size, terms.same_size);
              enough = omega (arith, r.enough, terms.same_limit);
              wanted = terms.same_flag ∙ r.wanted;
              resumable = resumable;
            } in
            let (outcome, exported) =
              run_export_job-exact row rows k.bs k.rest v store willing parser
                (record {
                  quiet = u.quiet;
                  no_crash = u.no_crash;
                  pages = u.pages;
                  frame = λ n d. Frame-terms job row terms d (e.others n d) (u.frame n d);
                })
                snapshot runnable (omega (arith, k.within, terms.same_limit))
                (Durable-terms job row terms rows k.bs k.rest v k.is_open.durable)
                (subst (λ id. find_job id v.db.jobs ≡ some row) (sym terms.same_id) there) in
            subst
              (λ id.
                ((run_export_job id v).0 ≡ returned (completed job.requested_row_limit))
                × IsExported e job rows (run_export_job id v).1)
              terms.same_id
              (
                outcome ∙ ap (λ n. returned (completed n)) terms.same_limit,
                IsExported-terms row job back rows _ exported,
              ))
      ]
