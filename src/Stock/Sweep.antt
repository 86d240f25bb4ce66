-- ===== src/Stock/Sweep.antt =====
-- One sweep of the retry worker: stock.retry-recalculation.service.ts.
use layer_backend.Base.{
  ℕ, zero, suc, ◌+◌, ◌≤◌, true, false, List, [], ◌∷◌, length, take, some, ◌≡◌, arith, ◌⊎◌,
}
use layer_backend.Exec.{Result, ok, err, settled, ◌>>=◌}
use layer_backend.Schema.{StockRecalculationTask, RecalculationTaskStatus}
use layer_backend.Platform.{Platform}
use layer_backend.World.{World, call, query}
use layer_backend.Stock.Types.{StockTarget, StockRecalculationResult, retry_batch_size}
use layer_backend.Stock.Repositories.Tasks.{find_pending, has_status}
use layer_backend.Stock.Recalculate.{run}
use layer_backend.Stock.Retry.{target_of, after_run, retry_tasks, retry_pending}

module _ (p : Platform) where
  -- At most one pair more counts as recovered after a run.
  abbrev AddsOne : ℕ → Result ℕ × World p → Type 0
  AddsOne recovered (ok n, w') = (recovered ≤ n) × (n ≤ suc recovered)
  AddsOne recovered (err e, w') = Unit

  after_run-AddsOne :
      (t : StockTarget) (recovered : ℕ) (r : Result StockRecalculationResult) (w : World p)
      → AddsOne recovered (after_run p t recovered r w)
  unfolding after_run
  after_run-AddsOne t recovered (ok result) w = ground arith
  after_run-AddsOne t recovered (err e) w = ground arith

  abbrev CountsUpTo : ℕ → ℕ → Result ℕ × World p → Type 0
  CountsUpTo low high (ok n, w') = (low ≤ n) × (n ≤ high)
  CountsUpTo low high (err e, w') = Unit

  retry_tasks-CountsUpTo :
      (tasks : List ((ℕ × ℕ) × StockRecalculationTask)) (recovered : ℕ) (w : World p)
      → CountsUpTo recovered (recovered + length tasks) (retry_tasks p tasks recovered w)
  unfolding retry_tasks settled
  retry_tasks-CountsUpTo [] recovered w = ground arith
  retry_tasks-CountsUpTo (task ∷ tasks) recovered w =
      go (settled (run p (target_of task)) (after_run p (target_of task) recovered) w)
        (after_run-AddsOne (target_of task) recovered (run p (target_of task) w).0
          (run p (target_of task) w).1)
        (λ m u. retry_tasks-CountsUpTo tasks m u)
    where
      widen :
          (m : ℕ) (x : Result ℕ × World p)
          → recovered ≤ m
          → m ≤ suc recovered
          → CountsUpTo m (m + length tasks) x
          → CountsUpTo recovered (recovered + length (task ∷ tasks)) x
      widen m (ok n, u) low high (a, b) = (omega arith, omega arith)
      widen m (err e, u) low high h = tt

      go :
          (x : Result ℕ × World p)
          → AddsOne recovered x
          → ((m : ℕ) (u : World p) → CountsUpTo m (m + length tasks) (retry_tasks p tasks m u))
          → CountsUpTo recovered
              (recovered + length (task ∷ tasks))
              (((λ u. x) >>= retry_tasks p tasks) w)
      go (ok m, u) (low, high) rest = widen m (retry_tasks p tasks m u) low high (rest m u)
      go (err e, u) h rest = tt

  -- The tasks that a sweep finds: at most fifty that are PENDING.
  abbrev pub due : World p → List ((ℕ × ℕ) × StockRecalculationTask)
  due w =
      p.task.find_many (λ r. has_status r.1.status RecalculationTaskStatus.pending)
        (λ r. r.1.updated_at) (some retry_batch_size) w.db.tasks

  length-take : {A : Type 0} (n : ℕ) (xs : List A) → length (take n xs) ≤ n
  length-take zero xs = ground arith
  length-take (suc n) [] = ground arith
  length-take (suc n) (x ∷ xs) = ground (arith, length-take n xs)

  due-bound : (w : World p) → length (due w) ≤ retry_batch_size
  due-bound w = rw (p.task.find_many-rows) (length-take retry_batch_size _)

  abbrev pub Sweeps : World p → Result ℕ × World p → Type 0
  Sweeps w (ok n, w') =
      ((w.running ≡ true) × (n ≡ 0) × (w' ≡ w))
      ⊎ ((w.running ≡ false) × (w'.running ≡ false) × (n ≤ length (due w)) × (n ≤ retry_batch_size))
  Sweeps w (err e, w') = (w.running ≡ false) × (w'.running ≡ false)

  -- A sweep does nothing while another is running. Otherwise it recovers no more pairs than there are
  -- PENDING tasks in its batch, which are at most fifty, and leaves the guard open, also when it
  -- rejects.
  pub retry_pending-Sweeps : (w : World p) → Sweeps w (retry_pending p w)
  unfolding retry_pending find_pending query call
  retry_pending-Sweeps w = ground (
    arith,
    due-bound w,
    retry_tasks-CountsUpTo (due w) 0 (record w { running = true; tick = suc w.tick }),
  )
