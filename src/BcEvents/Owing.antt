-- ===== src/BcEvents/Owing.antt =====
-- What the transaction of a stock message leaves: bc-events.ingest.service.ts.
use layer_backend.Base.{ℕ, some, List, ◌≡◌, arith, refl, if◌then◌else◌}
use layer_backend.Schema.{RecalculationTaskStatus}
use layer_backend.Stock.Targets.{targets_pair}
use layer_backend.Stock.Pairs.{affects}
use layer_backend.Stock.Pairs.Targets.{Queued, service_apply_stock-Queued}
use layer_backend.Exec.{Result, ok, err, pure, lift, ◌>>=◌, ◌>>◌}
use layer_backend.Platform.{Platform}
use layer_backend.World.{World, Db, M, call, transaction}
use layer_backend.World.Ends.{bind-ends}
use layer_backend.Frames.Tables.{mark_processed-Keeps}
use layer_backend.Stock.Types.{StockTarget, StockUpdateCommand}
use layer_backend.Stock.Service
use layer_backend.Stock.Owed.{status, queued, Owes, apply_stock-Owes}
use layer_backend.BcEvents.Dto.{BcStockEvent}
use layer_backend.BcEvents.Inbox.{KafkaMessageMeta, mark_processed}
use layer_backend.BcEvents.Mapping.{to_stock_command}
use layer_backend.BcEvents.Ingest.{apply_message, apply_stock_event}

module _ (p : Platform) (k : ℕ × ℕ) (dto : BcStockEvent) where
  -- What the targets of a message and the status of a pair are once it is applied.
  abbrev Owed : List StockTarget → World p → Db p → Type 0
  Owed ts w db =
      (c : StockUpdateCommand) × (to_stock_command dto ≡ ok c)
      × (affects p db c.sku c.lines k ≡ targets_pair k ts)
      × (status p k db ≡ queued p k ts (status p k w.db))

  abbrev Leaves : World p → Result (List StockTarget) × World p → Type 0
  Leaves w (ok ts, w') = Owed ts w w'.db
  Leaves w (err e, w') = Unit

  apply_stock_event-Leaves : (w : World p) → Leaves w (apply_stock_event p dto w)
  unfolding apply_stock_event
  apply_stock_event-Leaves w = go (to_stock_command dto) refl
    where
      both :
          (c : StockUpdateCommand) (x : Result (List StockTarget) × World p)
          → to_stock_command dto ≡ ok c
          → Owes p k w x
          → Queued p c k x
          → Leaves w x
      both c (ok ts, v) e h q = (c, e, q, h)
      both c (err e, v) _ h q = tt

      go :
          (r : Result StockUpdateCommand)
          → to_stock_command dto ≡ r
          → Leaves w ((lift r >>= Service.apply_stock p) w)
      go (ok c) e =
          both c (Service.apply_stock p c w) e (apply_stock-Owes p k c w)
            (service_apply_stock-Queued p c k w)
      go (err e) h = tt

  -- What the transaction of a message leaves: for a pair that a line is about a PENDING task, and for
  -- every other the status that its task had; or the database that it met.
  abbrev pub Commits : World p → Result (List StockTarget) × World p → Type 0
  Commits w (ok ts, w') =
      (c : StockUpdateCommand) × (to_stock_command dto ≡ ok c)
      × (status p k w'.db ≡ (
          if affects p w'.db c.sku c.lines k
          then some RecalculationTaskStatus.pending
          else status p k w.db))
  Commits w (err e, w') = w'.db ≡ w.db

  marked :
      (meta : KafkaMessageMeta) (ts : List StockTarget) (w v : World p)
      → Owed ts w v.db
      → Leaves w ((mark_processed p meta >> pure ts) v)
  marked meta ts w v h =
      bind-ends p (Leaves w) (mark_processed p meta) (λ u. pure ts) v
        (λ u e. (mark_processed-Keeps p {P = Owed ts w} (λ db t x. x) meta).at v h) (λ e x. tt)

  committed : (ts : List StockTarget) (w v : World p) → Owed ts w v.db → Commits w (ok ts, v)
  committed ts w v (c, e, names, pending) = (c, e, ground (arith, names, pending))

  commit :
      (m : M p (List StockTarget)) (w : World p) → Leaves w (m w) → Commits w (transaction p m w)
  unfolding transaction call
  commit m w h = go (m w) h
    where
      go :
          (x : Result (List StockTarget) × World p)
          → Leaves w x
          → Commits w (transaction p (λ u. x) w)
      go (ok ts, v) owed = ground (arith, committed ts w v owed)
      go (err e, v) _ = refl

  -- When the transaction of a stock message commits, the message is mapped to lines, and the task of
  -- every pair of a variant and a region that one of the lines is about is PENDING, by the ids that
  -- the database has then; every other task has the status that it had. When it does not commit,
  -- the database is the one that it met.
  pub apply_message-Commits :
      (meta : KafkaMessageMeta) (w : World p)
      → Commits w (apply_message p meta (apply_stock_event p dto) w)
  unfolding apply_message
  apply_message-Commits meta w =
      commit (apply_stock_event p dto >>= λ ts. mark_processed p meta >> pure ts) w
        (go (apply_stock_event p dto w) (apply_stock_event-Leaves w))
    where
      go :
          (x : Result (List StockTarget) × World p)
          → Leaves w x
          → Leaves w (((λ u. x) >>= λ ts. mark_processed p meta >> pure ts) w)
      go (ok ts, v) h = marked meta ts w v h
      go (err e, v) h = tt
