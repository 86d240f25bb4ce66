-- ===== src/Stock/Retry.antt =====
-- stock.retry-recalculation.service.ts: the worker that runs blocked calculations again.
use layer_backend.Base.{ℕ, suc, true, false, List, [], ◌∷◌, if◌then◌else◌}
use layer_backend.Shared.Errors.{message_of}
use layer_backend.Exec.{Result, ok, err, pure, settled, finally, ◌>>=◌, ◌>>◌}
use layer_backend.Schema.{StockRecalculationTask}
use layer_backend.Platform.{Platform}
use layer_backend.World.{M}
use layer_backend.Stock.Types.{
  StockTarget, StockRecalculationResult, retry_batch_size, max_attempts,
}
use layer_backend.Stock.Repositories.Tasks.{find_pending, record_unavailable}
use layer_backend.Stock.Recalculate.{run}

-- The target that a task row describes.
abbrev pub target_of : (ℕ × ℕ) × StockRecalculationTask → StockTarget
target_of (k, task) = record {
  variant_id = k.0;
  sku = task.sku;
  variant_code = task.variant_code;
  region_id = k.1;
  region_code = task.region_code;
}

module _ (p : Platform) where
  -- What follows one run, by its outcome: one more pair recovered, or the failure is counted.
  unfoldable pub after_run : StockTarget → ℕ → Result StockRecalculationResult → M p ℕ
  after_run target recovered (ok result) =
      pure (if result.reservations_stale then recovered else suc recovered)
  after_run target recovered (err e) =
      record_unavailable p target (message_of e) max_attempts >> pure recovered

  -- The loop over the batch.
  unfoldable pub retry_tasks : List ((ℕ × ℕ) × StockRecalculationTask) → ℕ → M p ℕ
  retry_tasks [] recovered = pure recovered
  retry_tasks (task ∷ tasks) recovered =
      settled (run p (target_of task)) (after_run (target_of task) recovered) >>= retry_tasks tasks

  -- `retryPending`.
  unfoldable pub retry_pending : M p ℕ
  retry_pending w =
      if w.running
      then (ok 0, w)
      else finally (find_pending p retry_batch_size >>= λ tasks. retry_tasks tasks 0)
          (λ w'. record w' { running = false }) (record w { running = true })
