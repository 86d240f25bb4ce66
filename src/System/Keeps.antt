-- ===== src/System/Keeps.antt =====
-- A predicate on the database that the parts of the service keep holds wherever the service gets.
use layer_backend.Base.{String}
use layer_backend.Platform.{Platform}
use layer_backend.World.{World, Db}
use layer_backend.World.Keeps.{Keeps, Secures, Keeps-Secures, keeps_rules}
use layer_backend.Frames.Writes.{
  IgnoresRegions, IgnoresShops, IgnoresSeasons, IgnoresProducts, IgnoresVariants, IgnoresShopStocks,
  IgnoresTasks,
}
use layer_backend.Frames.Workers.{retry_pending-Keeps, recalculate_variant-Keeps}
use layer_backend.Frames.Ingest.{KeepsInbox, handle_stock-Keeps, handle_product-Keeps}
use layer_backend.Frames.Messages.{apply_catalogue-Keeps, apply_and_queue-Keeps}
use layer_backend.Stock.Types.{StockTarget}
use layer_backend.Stock.Recalculate.{run}
use layer_backend.Stock.Controller.{recalculate}
use layer_backend.Ecom.Publisher.{publish_pending}
use layer_backend.BcEvents.Dto.{BcStockEvent, BcProductEvent}
use layer_backend.BcEvents.Ingest.{apply_product, apply_stock_event}
use layer_backend.System.Steps.{
  Step, product_message, stock_message, drain, sweep, request, restart, Reach, here, next,
}

-- A stock message writes nothing that the predicate is about.
module _ (p : Platform) {P : Db p → Type 0} where
  pub stock_event-Secures :
      IgnoresRegions p P
      → IgnoresShops p P
      → IgnoresProducts p P
      → IgnoresVariants p P
      → IgnoresShopStocks p P
      → IgnoresTasks p P
      → (dto : BcStockEvent) → Secures p P (apply_stock_event p dto)
  unfolding apply_stock_event
  stock_event-Secures r s pr v q k dto =
      Keeps-Secures p _ (search (keeps_rules, apply_and_queue-Keeps))

module _ (p : Platform) (P : Db p → Type 0) (runs : (t : StockTarget) → Keeps p P (run p t))
    (drained : Keeps p P (publish_pending p)) (inbox : KeepsInbox p P)
    (stock : (dto : BcStockEvent) → Secures p P (apply_stock_event p dto))
    (seasons : IgnoresSeasons p P) (products : IgnoresProducts p P) (variants : IgnoresVariants p P)
    (tasks : IgnoresTasks p P) where
  product_event-Secures : (dto : BcProductEvent) → Secures p P (apply_product p dto)
  unfolding apply_product
  product_event-Secures dto = Keeps-Secures p _ (search (keeps_rules, apply_catalogue-Keeps))

  recalculate-Keeps : (sku code : String) → Keeps p P (recalculate p sku code)
  unfolding recalculate
  recalculate-Keeps sku code = search (keeps_rules, recalculate_variant-Keeps p runs tasks sku code)

  Step-Keeps : (w v : World p) → Step p w v → P w.db → P v.db
  Step-Keeps w v (product_message payload context e) h =
      rw e ((handle_product-Keeps p inbox runs product_event-Secures payload context).at w h)
  Step-Keeps w v (stock_message payload context e) h =
      rw e ((handle_stock-Keeps p inbox runs stock payload context).at w h)
  Step-Keeps w v (drain e) h = rw e (drained.at w h)
  Step-Keeps w v (sweep e) h = rw e ((retry_pending-Keeps p runs tasks).at w h)
  Step-Keeps w v (request sku code e) h = rw e ((recalculate-Keeps sku code).at w h)
  Step-Keeps w v (restart e) h = rw e h

  pub Reach-Keeps : {w v : World p} → Reach p w v → P w.db → P v.db
  Reach-Keeps here h = h
  Reach-Keeps (next {v} {u} r s) h = Step-Keeps v u s (Reach-Keeps r h)
