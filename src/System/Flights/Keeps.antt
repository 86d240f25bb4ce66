-- ===== src/System/Flights/Keeps.antt =====
-- A predicate that the parts of the service keep holds after whatever happens while runs are in
-- flight.
use layer_backend.Base.{ℕ, String, List}
use layer_backend.Platform.{Platform}
use layer_backend.World.{World, Db}
use layer_backend.World.Keeps.{Keeps, Secures, Keeps-Secures, keeps_rules}
use layer_backend.Frames.Writes.{IgnoresSeasons, IgnoresProducts, IgnoresVariants, IgnoresTasks}
use layer_backend.Frames.Tables.{enqueue_task-Keeps, record_unavailable-Keeps}
use layer_backend.Frames.Messages.{apply_catalogue-Keeps}
use layer_backend.Frames.Ingest.{KeepsInbox, apply_message-Keeps}
use layer_backend.Frames.Workers.{publish_pending-Keeps, settle-Keeps}
use layer_backend.Ecom.Repositories.{mark_sent, mark_published, record_failure}
use layer_backend.BcEvents.Dto.{BcProductEvent, BcStockEvent}
use layer_backend.BcEvents.Ingest.{apply_product, apply_stock_event}
use layer_backend.System.Flights.{
  Quiet, received, catalogue, stock, parked, queued, blocked, drained, settled,
}

module _ (p : Platform) (P : Db p → Type 0)
    (sent : (ids : List ℕ) (time : ℕ) → Keeps p P (mark_sent p ids time))
    (failed : (ids : List ℕ) (error : String) → Keeps p P (record_failure p ids error))
    (stamped : (pairs : List (ℕ × ℕ)) (time : ℕ) → Keeps p P (mark_published p pairs time))
    (inbox : KeepsInbox p P) (stocks : (dto : BcStockEvent) → Secures p P (apply_stock_event p dto))
    (seasons : IgnoresSeasons p P) (products : IgnoresProducts p P) (variants : IgnoresVariants p P)
    (tasks : IgnoresTasks p P) where
  product-Secures : (dto : BcProductEvent) → Secures p P (apply_product p dto)
  unfolding apply_product
  product-Secures dto = Keeps-Secures p _ (search (keeps_rules, apply_catalogue-Keeps))

  pub Quiet-Keeps : (w v : World p) → Quiet p w v → P w.db → P v.db
  Quiet-Keeps w v (received type payload meta e) h =
      rw e ((inbox.recorded type payload meta).at w h)
  Quiet-Keeps w v (catalogue meta dto e) h =
      rw e ((apply_message-Keeps p inbox meta _ (product-Secures dto)).at w h)
  Quiet-Keeps w v (stock meta dto e) h =
      rw e ((apply_message-Keeps p inbox meta _ (stocks dto)).at w h)
  Quiet-Keeps w v (parked meta error e) h = rw e ((inbox.failed meta error).at w h)
  Quiet-Keeps w v (queued target reason e) h =
      rw e ((enqueue_task-Keeps p tasks target reason).at w h)
  Quiet-Keeps w v (blocked target error n e) h =
      rw e ((record_unavailable-Keeps p tasks target error n).at w h)
  Quiet-Keeps w v (drained e) h = rw e ((publish_pending-Keeps p sent failed stamped).at w h)
  Quiet-Keeps w v (settled rows r e) h = rw e ((settle-Keeps p sent failed stamped rows r).at w h)
