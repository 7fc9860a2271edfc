-- ===== src/Http/Bounds.antt =====
-- The bounds of every job that a request for an export creates
-- (server/src/controllers/export.controller.ts, services/export.service.ts, config/env.ts).
use export_vault.Prelude.{ℕ, ◌≤◌, ◌<◌, ◌≡◌, refl, Bool, not, Option, arith, ltb, ◌==◌, All}
use export_vault.Prelude.Int.{pos, negsuc}
use export_vault.Text.{Text}
use export_vault.Model.{ExportJob}
use export_vault.Model.Errors.{
  conflict_error, validation_error, app_error, too_many_exports, too_few_records,
  row_limit_not_positive, row_limit_too_high,
}
use export_vault.Model.Errors
use export_vault.World.{Env, Db, World}
use export_vault.World.Safe.{
  Safe-read_clock, Safe, Safe-query, Safe-transact, Safe-bind, Safe-throw, Safe-if, Safe-lift,
  Safe-fresh_id,
}
use export_vault.Jobs.{touched}
use export_vault.Jobs.Laws.{update_job-All}
use export_vault.World.Keeps.{Keeps-if}
use export_vault.Queue.Safe.{enqueue_export_job-Safe}
use export_vault.Auth.{Crypto}
use export_vault.ExportService.{
  Number, integer, fractional, max_row_limit, create_checked, create_export_job,
}
use export_vault.Config.Checked.{valid}
use export_vault.Config.Fields.{JsNumber}
use export_vault.Config.Load.{Config, Environment, load}
use export_vault.Config.Load.Sound.{load-IsSound}
use export_vault.Http.Exports.{authenticated, limited, post_export}

-- A job asks for 1 to 50,000 rows, in batches of 1 to 10,000.
pub record IsBounded (j : ExportJob) : Type 0 where
  pub some_rows : 0 < j.requested_row_limit
  pub row_cap : j.requested_row_limit ≤ 50000
  pub some_batch : 0 < j.batch_size
  pub batch_cap : j.batch_size ≤ 10000

abbrev pub AllBounded : Db → Type 0
AllBounded d = All IsBounded d.jobs

update-IsBounded :
    (f : ExportJob → ExportJob) (j : ExportJob)
    → (f j).requested_row_limit ≡ j.requested_row_limit
    → (f j).batch_size ≡ j.batch_size
    → IsBounded j
    → IsBounded (f j)
update-IsBounded f j rows size h = record {
  some_rows = omega (arith, h.some_rows, rows);
  row_cap = omega (arith, h.row_cap, rows);
  some_batch = omega (arith, h.some_batch, size);
  batch_cap = omega (arith, h.batch_cap, size);
}

module _ {e : Env} (rely : (n : ℕ) (d : Db) → AllBounded d → AllBounded (e.others n d))
    (size : 0 < e.export_batch_size) (small : e.export_batch_size ≤ 10000) where
  create_checked-Safe :
      (user : Text) (limit : ℕ)
      → 0 < limit
      → limit ≤ 50000
      → Safe {e = e} AllBounded (create_checked user limit)
  unfolding create_checked
  create_checked-Safe user limit some_rows cap =
      Safe-bind AllBounded _ _ (Safe-query AllBounded rely _) (λ snapshot.
        Safe-bind AllBounded _ _ (Safe-query AllBounded rely _) (λ available.
          Safe-if AllBounded (ltb available limit) _ _ (Safe-throw AllBounded _) (
            Safe-bind AllBounded _ _ (Safe-fresh_id AllBounded) (λ id.
              Safe-bind AllBounded _ _
                (Safe-transact AllBounded rely _ (λ d h. (
                  record {
                    some_rows = some_rows;
                    row_cap = cap;
                    some_batch = size;
                    batch_cap = small;
                  },
                  h,
                )))
                (λ _. Safe-bind AllBounded _ _ (enqueue_export_job-Safe AllBounded rely id) (λ _.
                  Safe-transact AllBounded rely _ (λ d h.
                    update_job-All IsBounded id (λ now j. record j { status = Errors.queued }) d
                      (λ now j same b.
                        update-IsBounded (λ k. touched now (record k { status = Errors.queued })) j
                          refl refl b)
                      h)))))))

  create_export_job-Safe :
      (user : Text) (limit : Number) → Safe {e = e} AllBounded (create_export_job user limit)
  unfolding create_export_job
  create_export_job-Safe user fractional = Safe-throw AllBounded _
  create_export_job-Safe user (integer (negsuc n)) = Safe-throw AllBounded _
  create_export_job-Safe user (integer (pos n)) =
      Keeps-if AllBounded (λ _. Unit) (n == 0) _ _ (λ _. Safe-throw AllBounded _)
        (λ positive.
          Keeps-if AllBounded (λ _. Unit) (ltb max_row_limit n) _ _ (λ _. Safe-throw AllBounded _)
            (λ capped. create_checked-Safe user n (ground arith) (ground arith)))

  post_export-Safe :
      (c : Crypto) (allowed : Text → Bool) (header : Option Text) (row_limit : Option JsNumber)
      → Safe {e = e} AllBounded (post_export c allowed header row_limit)
  unfolding post_export authenticated limited
  post_export-Safe c allowed header row_limit =
      Safe-bind AllBounded _ _ (Safe-read_clock AllBounded) (λ now.
        Safe-bind AllBounded _ _ (Safe-lift AllBounded _) (λ user.
          Safe-if AllBounded (not (allowed user)) _ _ (Safe-throw AllBounded _) (
            Safe-bind AllBounded _ _ (Safe-lift AllBounded _)
              (λ limit. create_export_job-Safe user (integer (pos limit))))))

-- Let the batch size of a process be that of settings which its environment gave. If every job asks
-- for 1 to 50,000 rows in batches of 1 to 10,000, and the other processes keep it so, then it is so
-- behind a request for an export, whatever header and body it has, whatever calls fail, lose their
-- reply or find the process dead.
pub post_export_keeps_bounds :
    {e : Env} (number : Text → JsNumber) (v : Environment) (settings : Config) (c : Crypto)
    (allowed : Text → Bool) (header : Option Text) (row_limit : Option JsNumber) (w : World e)
    → load number v ≡ valid settings
    → e.export_batch_size ≡ settings.export.batch_size
    → ((n : ℕ) (d : Db) → AllBounded d → AllBounded (e.others n d))
    → AllBounded w.db
    → AllBounded (post_export c allowed header row_limit w).1.db
post_export_keeps_bounds number v settings c allowed header row_limit w loaded used rely h =
    let sound = load-IsSound number v loaded in
    ((post_export-Safe rely (omega (arith, sound.batch_size, used))
        (omega (arith, sound.batch_limit, used)) c allowed header row_limit).at
      w h).0
