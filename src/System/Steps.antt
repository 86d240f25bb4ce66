-- ===== src/System/Steps.antt =====
-- What drives the service: messages of Business Central, the timers of the two workers, manual
-- recalculations, and restarts. One step is one operation, run to its end, whether it resolves or
-- rejects, and whichever of its calls fail.
use layer_backend.Base.{String, false, ◌≡◌}
use layer_backend.Shared.Json.{Json}
use layer_backend.Platform.{Platform}
use layer_backend.World.{World}
use layer_backend.Stock.Controller.{recalculate}
use layer_backend.Stock.Retry.{retry_pending}
use layer_backend.Ecom.Publisher.{publish_pending}
use layer_backend.BcEvents.Controller.{KafkaContext, handle_product, handle_stock}

module _ (p : Platform) where
  pub data Step (w w' : World p) : Type 0 where
    product_message :
        (payload : Json) (context : KafkaContext)
        → w' ≡ (handle_product p payload context w).1
        → Step w w'
    stock_message :
        (payload : Json) (context : KafkaContext)
        → w' ≡ (handle_stock p payload context w).1
        → Step w w'
    drain : w' ≡ (publish_pending p w).1 → Step w w'
    sweep : w' ≡ (retry_pending p w).1 → Step w w'
    request : (sku variant_code : String) → w' ≡ (recalculate p sku variant_code w).1 → Step w w'
    -- The database stays, and the guards start open.
    restart : w' ≡ record w { running = false; draining = false } → Step w w'

  pub data Reach (w : World p) : World p → Type 0 where
    here : Reach w w
    next : {v u : World p} → Reach w v → Step v u → Reach w u
