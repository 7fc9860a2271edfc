-- ===== src/Queue.antt =====
-- server/src/queues/export.queue.ts and workerWake.ts: enqueuing a run, and the nudge to the worker.
pub mod Laws
pub mod Safe
use export_vault.Prelude.{suc, Bool, true, false, not, ◌||◌, Option, none, some, if◌then◌else◌}
use export_vault.Text.{Text}
use export_vault.World.{Env, World, M, ◌>>=◌, ◌>>◌, on_jobs_queue, returned}

module _ {e : Env} where
  -- Without a URL, or with a request in flight, nothing is sent. It cannot throw: what `fetch` throws
  -- is logged when it arrives.
  unfoldable pub wake_worker : M e (Unit {0})
  wake_worker w =
      if not e.has_wake_url || w.in_flight
      then (returned tt, w)
      else (returned tt, record w { in_flight = true; wakes_sent = suc w.wakes_sent })

  -- `finally`: the request has been answered, or has failed.
  unfoldable pub wake_settled : World e → World e
  wake_settled w = record w { in_flight = false }

  unfoldable pub add_and_wake : Text → M e (Unit {0})
  add_and_wake id = do on_jobs_queue (e.add_entry id); wake_worker

  -- An entry that is 'active' is left alone; any other is replaced.
  unfoldable pub enqueue_existing : Text → Bool → M e (Unit {0})
  unfolding add_and_wake wake_worker
  enqueue_existing id active =
      if active then wake_worker else do on_jobs_queue (e.remove_entry id); add_and_wake id

  unfoldable pub enqueue_export_job : Text → M e (Unit {0})
  unfolding enqueue_existing add_and_wake
  enqueue_export_job id = do
    found ← on_jobs_queue (λ q. (e.get_job id q, q))
    if not found
        then add_and_wake id
        else do active ← on_jobs_queue (λ q. (e.get_state id q, q)); enqueue_existing id active
