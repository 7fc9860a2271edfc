-- ===== src/Queue/Laws.antt =====
-- What enqueuing promises (server/src/queues/export.queue.ts, workerWake.ts).
use export_vault.Prelude.{◌≡◌, refl, not, ◌||◌, arith, Bool-cases, inl, inr}
use export_vault.World.{Env, World, returned}
use export_vault.Queue.{wake_worker}

-- Until a wake request is settled, a second one changes nothing: at most one is in flight.
pub wake_worker-twice :
    {e : Env} (w : World e) → wake_worker (wake_worker w).1 ≡ (returned tt, (wake_worker w).1)
unfolding wake_worker
wake_worker-twice {e} w = elim (Bool-cases (not e.has_wake_url || w.in_flight)) [
  | inl quiet ↦ rw (quiet, quiet) refl
  | inr sent ↦ rw sent (ground arith)
]
