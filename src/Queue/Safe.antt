-- ===== src/Queue/Safe.antt =====
-- Enqueuing touches no table (server/src/queues/export.queue.ts, workerWake.ts).
use export_vault.Prelude.{ℕ, ◌||◌, Bool, not, Bool-cases, inl, inr}
use export_vault.Text.{Text}
use export_vault.World.{Env, Db}
use export_vault.World.Safe.{Safe, Safe-bind, Safe-if, Safe-on_jobs_queue}
use export_vault.Queue.{wake_worker, add_and_wake, enqueue_existing, enqueue_export_job}

module _ {e : Env} (I : Db → Type 0) (rely : (n : ℕ) (d : Db) → I d → I (e.others n d)) where
  wake_worker-Safe : Safe {e = e} I wake_worker
  unfolding wake_worker
  wake_worker-Safe = record {
    at = λ w i. elim (Bool-cases (not e.has_wake_url || w.in_flight)) [
      | inl quiet ↦ rw quiet (i, tt)
      | inr sent ↦ rw sent (i, tt)
    ];
  }

  add_and_wake-Safe : (id : Text) → Safe {e = e} I (add_and_wake id)
  unfolding add_and_wake
  add_and_wake-Safe id = Safe-bind I _ _ (Safe-on_jobs_queue I rely _) (λ _. wake_worker-Safe)

  enqueue_existing-Safe : (id : Text) (active : Bool) → Safe {e = e} I (enqueue_existing id active)
  unfolding enqueue_existing
  enqueue_existing-Safe id active =
      Safe-if I active _ _ wake_worker-Safe
        (Safe-bind I _ _ (Safe-on_jobs_queue I rely _) (λ _. add_and_wake-Safe id))

  pub enqueue_export_job-Safe : (id : Text) → Safe {e = e} I (enqueue_export_job id)
  unfolding enqueue_export_job
  enqueue_export_job-Safe id = Safe-bind I _ _ (Safe-on_jobs_queue I rely _) (λ found.
      Safe-if I (not found) _ _ (add_and_wake-Safe id)
        (Safe-bind I _ _ (Safe-on_jobs_queue I rely _) (λ active. enqueue_existing-Safe id active)))
