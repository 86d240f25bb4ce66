-- ===== src/Stock/Owed.antt =====
-- The recalculations that a stock message owes: applyStock of stock.service.ts.
use mathlib.Core.Path.{subst}
use layer_backend.Base.{ℕ, Option, some, List, [], ◌∷◌, ◌≡◌, refl, ◌∙◌, ap, arith, if◌then◌else◌}
use layer_backend.Exec.{Result, ok, err, pure, for_all, ◌>>=◌, ◌>>◌}
use layer_backend.Schema.{RecalculationReason, RecalculationTaskStatus}
use layer_backend.Platform.{Platform}
use layer_backend.World.{World, Db, M}
use layer_backend.World.Keeps.{Keeps}
use layer_backend.World.Ends.{bind-ends, rethrow-ends}
use layer_backend.Frames.Messages.{apply_stock-Keeps}
use layer_backend.Stock.Types.{StockTarget, StockUpdateCommand}
use layer_backend.Stock.Repositories.Tasks.{enqueue}
use layer_backend.Stock.Apply.{write_line, apply_line, apply_lines, set_target}
use layer_backend.Stock.Apply
use layer_backend.Stock.Service as Service
use layer_backend.Stock.Attempts.{task_of, task_status, enqueue-Queues, Queues}
use layer_backend.Stock.Targets.{targets_pair}

module _ (p : Platform) (k : ℕ × ℕ) where
  abbrev pub status : Db p → Option RecalculationTaskStatus
  status db = task_status p (task_of p db k)

  -- The task of the pair has a given status.
  abbrev HasStatus : Option RecalculationTaskStatus → Db p → Type 0
  HasStatus x db = status db ≡ x

  apply_stock-Keeps-HasStatus :
      (x : Option RecalculationTaskStatus) (c : StockUpdateCommand)
      → Keeps p (HasStatus x) (Apply.apply_stock p c)
  apply_stock-Keeps-HasStatus x c =
      apply_stock-Keeps p (λ db t h. h) (λ db t h. h) (λ db t h. h) (λ db t h. h) (λ db t h. h) c

  -- The status of the pair once targets are queued.
  abbrev pub queued :
      List StockTarget → Option RecalculationTaskStatus → Option RecalculationTaskStatus
  queued ts before = if targets_pair k ts then some RecalculationTaskStatus.pending else before

  abbrev Enqueues : List StockTarget → World p → Result (Unit {0}) × World p → Type 0
  Enqueues ts w (ok done, w') = status w'.db ≡ queued ts (status w.db)
  Enqueues ts w (err e, w') = Unit

  enqueue_all-Enqueues :
      (ts : List StockTarget) (w : World p)
      → Enqueues ts w (for_all (λ t. enqueue p t RecalculationReason.bc_stock) ts w)
  unfolding for_all
  enqueue_all-Enqueues [] w = refl
  enqueue_all-Enqueues (t ∷ ts) w =
      go (enqueue p t RecalculationReason.bc_stock w)
        (enqueue-Queues p t RecalculationReason.bc_stock k w) (λ u. enqueue_all-Enqueues ts u)
    where
      join :
          (y : Result (Unit {0}) × World p) (u : World p)
          → status u.db ≡ queued (t ∷ []) (status w.db)
          → Enqueues ts u y
          → Enqueues (t ∷ ts) w y
      join (ok done, v) u h e = ground arith
      join (err e, v) u h x = tt

      go :
          (y : Result (Unit {0}) × World p)
          → Queues p t RecalculationReason.bc_stock k w y
          → ((u : World p)
              → Enqueues ts u (for_all (λ t. enqueue p t RecalculationReason.bc_stock) ts u))
          → Enqueues
              (t ∷ ts)
              w
              (((λ u. y) >> for_all (λ t. enqueue p t RecalculationReason.bc_stock) ts) w)
      go (ok done, u) h rest =
          join (for_all (λ t. enqueue p t RecalculationReason.bc_stock) ts u) u (ground arith)
            (rest u)
      go (err e, u) h rest = tt

  abbrev pub Owes : World p → Result (List StockTarget) × World p → Type 0
  Owes w (ok ts, w') = status w'.db ≡ queued ts (status w.db)
  Owes w (err e, w') = Unit

  queue_targets-Owes :
      (ts : List StockTarget) (w v : World p)
      → status v.db ≡ status w.db
      → Owes w ((for_all (λ t. enqueue p t RecalculationReason.bc_stock) ts >> pure ts) v)
  queue_targets-Owes ts w v same =
      go (for_all (λ t. enqueue p t RecalculationReason.bc_stock) ts v) (enqueue_all-Enqueues ts v)
    where
      go : (y : Result (Unit {0}) × World p) → Enqueues ts v y → Owes w (((λ u. y) >> pure ts) v)
      go (ok done, u) h = h ∙ ap (queued ts) same
      go (err e, u) h = tt

  -- Once a stock command is applied, the pair of every target has a PENDING task, and the task of
  -- every other pair has the status that it had.
  pub apply_stock-Owes : (c : StockUpdateCommand) (w : World p) → Owes w (Service.apply_stock p c w)
  unfolding Service.apply_stock
  apply_stock-Owes c w =
      rethrow-ends p (Owes w) _ _ w (λ ts e. subst (λ r. Owes w (r, (m w).1)) e all) (λ x e. tt)
    where
      m : M p (List StockTarget)
      m = Apply.apply_stock p c >>= λ ts.
          for_all (λ t. enqueue p t RecalculationReason.bc_stock) ts >> pure ts

      all : Owes w (m w)
      all =
          bind-ends p (Owes w) (Apply.apply_stock p c)
            (λ ts. for_all (λ t. enqueue p t RecalculationReason.bc_stock) ts >> pure ts) w
            (λ ts e.
              queue_targets-Owes ts w (Apply.apply_stock p c w).1
                ((apply_stock-Keeps-HasStatus (status w.db) c).at w refl))
            (λ x e. tt)
