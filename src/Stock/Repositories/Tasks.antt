-- ===== src/Stock/Repositories/Tasks.antt =====
-- stock-recalculation-task.repository.ts.
use layer_backend.Base.{ℕ, suc, String, Bool, true, false, none, some, List, ltb, if◌then◌else◌}
use layer_backend.Exec.{pure, or_throw, ◌>>=◌}
use layer_backend.Schema.{StockRecalculationTask, RecalculationTaskStatus, RecalculationReason}
use layer_backend.Platform.{Platform, pair_of_ids}
use layer_backend.World.{M, query, execute, returning, now}
use layer_backend.Stock.Types.{StockTarget}
use layer_backend.Stock.Repositories.Shops.{not_found}

-- `reason === ERecalculationReason.ManualRequest`.
abbrev pub is_manual : RecalculationReason → Bool
is_manual RecalculationReason.manual_request = true
is_manual _ = false

abbrev pub has_status : RecalculationTaskStatus → RecalculationTaskStatus → Bool
has_status RecalculationTaskStatus.pending RecalculationTaskStatus.pending = true
has_status RecalculationTaskStatus.done RecalculationTaskStatus.done = true
has_status RecalculationTaskStatus.abandoned RecalculationTaskStatus.abandoned = true
has_status _ _ = false

-- `identity`.
abbrev pub identity : StockTarget → ℕ × ℕ
identity target = (target.variant_id, target.region_id)

-- The row that `enqueue` creates; the status and the attempts are the columns' defaults.
abbrev pub new_task : StockTarget → RecalculationReason → ℕ → StockRecalculationTask
new_task target reason time = record {
  sku = target.sku;
  variant_code = target.variant_code;
  region_code = target.region_code;
  status = RecalculationTaskStatus.pending;
  reason = reason;
  attempts = 0;
  last_error = none;
  last_tried_at = none;
  updated_at = time;
}

-- Its change of a row that is there: only a manual request clears the attempts.
abbrev pub requeue : RecalculationReason → ℕ → StockRecalculationTask → StockRecalculationTask
requeue reason time t =
    if is_manual reason
    then record t {
      reason = reason;
      status = RecalculationTaskStatus.pending;
      attempts = 0;
      last_error = none;
      updated_at = time;
    }
    else record t { reason = reason; status = RecalculationTaskStatus.pending; updated_at = time }

-- The upsert of `recordUnavailableReservations`: the row that it creates, and its change.
abbrev pub new_failure : StockTarget → String → ℕ → StockRecalculationTask
new_failure target error time =
    let t = new_task target RecalculationReason.ecom_unavailable time in
    record t { attempts = 1; last_error = some error; last_tried_at = some time }

abbrev pub count_failure : String → ℕ → StockRecalculationTask → StockRecalculationTask
count_failure error time t = record t {
  status = RecalculationTaskStatus.pending;
  attempts = suc t.attempts;
  last_error = some error;
  last_tried_at = some time;
  updated_at = time;
}

-- Its second statement.
abbrev pub abandon : ℕ → StockRecalculationTask → StockRecalculationTask
abandon time t = record t { status = RecalculationTaskStatus.abandoned; updated_at = time }

abbrev pub close : ℕ → StockRecalculationTask → StockRecalculationTask
close time t = record t {
  status = RecalculationTaskStatus.done;
  last_error = none;
  last_tried_at = some time;
  updated_at = time;
}

module _ (p : Platform) where
  -- `enqueue`.
  unfoldable pub enqueue : StockTarget → RecalculationReason → M p (Unit {0})
  enqueue target reason = do
    time ← now p
    execute p λ db. record db {
      tasks =
          p.task.upsert (identity target) (new_task target reason time) (requeue reason time)
            db.tasks;
    }

  -- `recordUnavailableReservations`.
  unfoldable pub record_unavailable : StockTarget → String → ℕ → M p (Unit {0})
  record_unavailable target error max_attempts = do
    time ← now p
    found ←
        returning p
          (λ db. record db {
            tasks =
                p.task.upsert (identity target) (new_failure target error time)
                  (count_failure error time) db.tasks;
          })
          (λ db. p.task.find_unique (identity target) db.tasks)
    task ← or_throw not_found found
    later ← now p
    if ltb task.attempts max_attempts
        then pure tt
        else execute p λ db. record db {
          tasks =
              p.task.update_many (λ k t. pair_of_ids.same k (identity target)) (abandon later)
                db.tasks;
        }

  -- `findPending`: the oldest first, by the time of the last change.
  unfoldable pub find_pending : ℕ → M p (List ((ℕ × ℕ) × StockRecalculationTask))
  find_pending n = query p λ db.
      p.task.find_many (λ r. has_status r.1.status RecalculationTaskStatus.pending)
        (λ r. r.1.updated_at) (some n) db.tasks

  -- `markDone`.
  unfoldable pub mark_done : StockTarget → M p (Unit {0})
  mark_done target = do
    time ← now p
    execute p λ db. record db {
      tasks =
          p.task.update_many (λ k t. pair_of_ids.same k (identity target)) (close time) db.tasks;
    }

  -- `countByStatus`.
  unfoldable pub count_by_status : RecalculationTaskStatus → M p ℕ
  count_by_status status = query p λ db. p.task.count (λ r. has_status r.1.status status) db.tasks
