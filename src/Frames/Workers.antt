-- ===== src/Frames/Workers.antt =====
-- The tables that the two workers and a manual recalculation write.
use layer_backend.Base.{ℕ, String, true, List, [], ◌∷◌, arith}
use layer_backend.Exec.{Result, ok, err, settled, ◌>>=◌}
use layer_backend.Schema.{StockRecalculationTask, EcomStockOutbox}
use layer_backend.Platform.{Platform, OutgoingMessage}
use layer_backend.World.{Db}
use layer_backend.World.Keeps.{Keeps, Keeps-execute, Keeps-bind, keeps_rules}
use layer_backend.Shared.Kafka as Kafka
use layer_backend.Frames.Writes.{IgnoresTasks, IgnoresEcomStocks, IgnoresOutbox}
use layer_backend.Frames.Tables.{enqueue_task-Keeps, record_unavailable-Keeps}
use layer_backend.Stock.Types.{retry_batch_size, StockTarget, StockRecalculationResult}
use layer_backend.Stock.Repositories.Tasks as Tasks
use layer_backend.Stock.Repositories.Catalogue.{find_with_regions}
use layer_backend.Stock.Recalculate.{run}
use layer_backend.Stock.Retry.{target_of, after_run, retry_tasks, retry_pending}
use layer_backend.Stock.Service.{recalculate_region, run_for_variant, recalculate_variant}
use layer_backend.Ecom.Repositories.{find_pending, mark_sent, mark_published, record_failure}
use layer_backend.Ecom.Publisher.{settle, drain_batch, drain, publish_pending}

module _ (p : Platform) {P : Db p → Type 0} where
  module _ (runs : (t : StockTarget) → Keeps p P (run p t)) (tasks : IgnoresTasks p P) where
    after_run-Keeps :
        (t : StockTarget) (n : ℕ) (r : Result StockRecalculationResult)
        → Keeps p P (after_run p t n r)
    unfolding after_run
    after_run-Keeps t n (ok r) = search keeps_rules
    after_run-Keeps t n (err e) = search (keeps_rules, record_unavailable-Keeps)

    retry_one-Keeps : (t : StockTarget) (n : ℕ) → Keeps p P (settled (run p t) (after_run p t n))
    retry_one-Keeps t n = search (keeps_rules, runs, after_run-Keeps)

    retry_tasks-Keeps :
        (ts : List ((ℕ × ℕ) × StockRecalculationTask)) (n : ℕ) → Keeps p P (retry_tasks p ts n)
    unfolding retry_tasks
    retry_tasks-Keeps [] n = search keeps_rules
    retry_tasks-Keeps (t ∷ ts) n =
        Keeps-bind p _ _ (retry_one-Keeps (target_of t) n) (λ m. retry_tasks-Keeps ts m)

    sweep-Keeps : (n : ℕ) → Keeps p P (Tasks.find_pending p n)
    unfolding Tasks.find_pending
    sweep-Keeps n = search keeps_rules

    pub retry_pending-Keeps : Keeps p P (retry_pending p)
    unfolding retry_pending
    retry_pending-Keeps = record {
      at = λ w h. ground (arith, all.at (record w { running = true }) h);
    }
      where
        all : Keeps p P (Tasks.find_pending p retry_batch_size >>= λ tasks. retry_tasks p tasks 0)
        all = Keeps-bind p _ _ (sweep-Keeps _) (λ ts. retry_tasks-Keeps ts 0)

    find_with_regions-Keeps : (sku code : String) → Keeps p P (find_with_regions p sku code)
    unfolding find_with_regions
    find_with_regions-Keeps sku code = search keeps_rules

    recalculate_region-Keeps :
        (v : ℕ) (sku code : String) (r : ℕ × String) → Keeps p P (recalculate_region p v sku code r)
    unfolding recalculate_region
    recalculate_region-Keeps v sku code r = search (keeps_rules, enqueue_task-Keeps, runs) depth 8

    pub recalculate_variant-Keeps : (sku code : String) → Keeps p P (recalculate_variant p sku code)
    unfolding recalculate_variant run_for_variant
    recalculate_variant-Keeps sku code =
        search (keeps_rules, find_with_regions-Keeps, recalculate_region-Keeps) depth 8

  -- A drain writes by three methods of the repositories.
  module _ (sent : (ids : List ℕ) (time : ℕ) → Keeps p P (mark_sent p ids time))
      (failed : (ids : List ℕ) (error : String) → Keeps p P (record_failure p ids error))
      (stamped : (pairs : List (ℕ × ℕ)) (time : ℕ) → Keeps p P (mark_published p pairs time)) where
    pub settle-Keeps :
        (rows : List (ℕ × EcomStockOutbox)) (r : Result (Unit {0})) → Keeps p P (settle p rows r)
    unfolding settle
    settle-Keeps rows (ok done) = search (keeps_rules, sent, stamped) depth 9
    settle-Keeps rows (err e) = search (keeps_rules, failed)

    publish-Keeps :
        (topic : String) (messages : List OutgoingMessage)
        → Keeps p P (Kafka.publish p topic messages)
    unfolding Kafka.publish
    publish-Keeps topic [] = record { at = λ w h. h }
    publish-Keeps topic (m ∷ ms) = record { at = λ w h. ground arith }

    drain_batch-Keeps : (rows : List (ℕ × EcomStockOutbox)) → Keeps p P (drain_batch p rows)
    unfolding drain_batch
    drain_batch-Keeps [] = search keeps_rules
    drain_batch-Keeps (r ∷ rows) = search (keeps_rules, publish-Keeps, settle-Keeps)

    drain-Keeps : Keeps p P (drain p)
    unfolding drain find_pending
    drain-Keeps = search (keeps_rules, drain_batch-Keeps)

    pub publish_pending-Keeps : Keeps p P (publish_pending p)
    unfolding publish_pending
    publish_pending-Keeps = record {
      at = λ w h. ground (arith, drain-Keeps.at (record w { draining = true }) h);
    }

  -- A predicate on neither the results nor the outbox.
  module _ (stocks : IgnoresEcomStocks p P) (outbox : IgnoresOutbox p P) where
    mark_sent-Keeps : (ids : List ℕ) (time : ℕ) → Keeps p P (mark_sent p ids time)
    unfolding mark_sent
    mark_sent-Keeps ids time = search (Keeps-execute)

    record_failure-Keeps : (ids : List ℕ) (error : String) → Keeps p P (record_failure p ids error)
    unfolding record_failure
    record_failure-Keeps ids error = search (Keeps-execute)

    mark_published-Keeps : (pairs : List (ℕ × ℕ)) (n : ℕ) → Keeps p P (mark_published p pairs n)
    unfolding mark_published
    mark_published-Keeps [] n = search keeps_rules
    mark_published-Keeps (x ∷ xs) n = search (Keeps-execute)

    pub drained-Keeps : Keeps p P (publish_pending p)
    drained-Keeps = publish_pending-Keeps mark_sent-Keeps record_failure-Keeps mark_published-Keeps
