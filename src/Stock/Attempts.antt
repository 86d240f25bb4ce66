-- ===== src/Stock/Attempts.antt =====
-- The attempts of a retry task: stock-recalculation-task.repository.ts.
use layer_backend.Base.{ℕ, suc, String, Option, none, some, ◌≡◌, ◌⊎◌, arith, ltb, if◌then◌else◌}
use layer_backend.Exec.{Result, ok, err}
use layer_backend.Schema.{StockRecalculationTask, RecalculationTaskStatus, RecalculationReason}
use layer_backend.Platform.{Platform, pair_of_ids}
use layer_backend.Platform.Laws.{
  find_unique-upsert, find_unique-upsert_self, find_unique-update_many,
}
use layer_backend.World.{World, Db, returning, execute}
use layer_backend.Stock.Types.{StockTarget}
use layer_backend.Stock.Repositories.Tasks.{
  identity, is_manual, new_task, requeue, new_failure, count_failure, enqueue, record_unavailable,
  abandon,
}

module _ (p : Platform) where
  -- The retry task of a pair.
  abbrev pub task_of : Db p → ℕ × ℕ → Option StockRecalculationTask
  task_of db k = p.task.find_unique k db.tasks

  abbrev pub attempts_of : Option StockRecalculationTask → ℕ
  attempts_of none = 0
  attempts_of (some task) = task.attempts

  abbrev pub task_status : Option StockRecalculationTask → Option RecalculationTaskStatus
  task_status none = none
  task_status (some task) = some task.status

  -- One failed attempt, seen at a pair `k`.
  abbrev pub Counts : StockTarget → ℕ → ℕ × ℕ → World p → Result (Unit {0}) × World p → Type 0
  Counts t max k w (ok done, w') =
      if pair_of_ids.same (identity t) k
      then (attempts_of (task_of w'.db k) ≡ suc (attempts_of (task_of w.db k)))
        × (task_status (task_of w'.db k)
            ≡ some (
                if ltb (suc (attempts_of (task_of w.db k))) max
                then RecalculationTaskStatus.pending
                else RecalculationTaskStatus.abandoned))
      else (task_of w'.db k ≡ task_of w.db k)
  Counts t max k w (err e, w') =
      if pair_of_ids.same (identity t) k
      then (task_of w'.db k ≡ task_of w.db k)
        ⊎ ((attempts_of (task_of w'.db k) ≡ suc (attempts_of (task_of w.db k)))
            × (task_status (task_of w'.db k) ≡ some RecalculationTaskStatus.pending))
      else (task_of w'.db k ≡ task_of w.db k)

  -- A failed attempt adds one to the attempts of its pair, from zero where the pair has no task, and
  -- the task is ABANDONED when the attempts reach the limit, PENDING below it. The task of every
  -- other pair stays as it was. If a call of the database fails, the task is as it was, or it is
  -- PENDING with the attempt counted.
  pub record_unavailable-Counts :
      (t : StockTarget) (error : String) (max : ℕ) (k : ℕ × ℕ) (w : World p)
      → Counts t max k w (record_unavailable p t error max w)
  unfolding record_unavailable returning execute
  record_unavailable-Counts t error max k w = ground (
    arith,
    find_unique-upsert p.task (identity t) k (new_failure t error (p.now w.tick))
        (count_failure error (p.now w.tick)) w.db.tasks,
    find_unique-upsert_self p.task (identity t) (new_failure t error (p.now w.tick))
        (count_failure error (p.now w.tick)) w.db.tasks,
    find_unique-update_many p.task k (λ j task. pair_of_ids.same j (identity t))
        (abandon (p.now (suc w.tick)))
        (p.task.upsert (identity t) (new_failure t error (p.now w.tick))
          (count_failure error (p.now w.tick)) w.db.tasks),
    pair_of_ids.same_iff (identity t) k,
    pair_of_ids.same_iff k (identity t),
  )

  -- What queuing a task leaves, seen at a pair `k`.
  abbrev pub Queues :
      StockTarget → RecalculationReason → ℕ × ℕ → World p → Result (Unit {0}) × World p → Type 0
  Queues t reason k w (ok done, w') =
      if pair_of_ids.same (identity t) k
      then (task_status (task_of w'.db k) ≡ some RecalculationTaskStatus.pending)
        × (attempts_of (task_of w'.db k)
            ≡ (if is_manual reason then 0 else attempts_of (task_of w.db k)))
      else (task_of w'.db k ≡ task_of w.db k)
  Queues t reason k w (err e, w') = w'.db ≡ w.db

  -- A queued pair has a PENDING task. Its attempts stay what they were, zero where it had no task,
  -- unless the request is a manual one, which sets them to zero. The task of every other pair stays as
  -- it was, and nothing changes if the call fails.
  pub enqueue-Queues :
      (t : StockTarget) (reason : RecalculationReason) (k : ℕ × ℕ) (w : World p)
      → Queues t reason k w (enqueue p t reason w)
  unfolding enqueue execute
  enqueue-Queues t reason k w = ground (
    arith,
    find_unique-upsert p.task (identity t) k (new_task t reason (p.now w.tick))
        (requeue reason (p.now w.tick)) w.db.tasks,
  )
