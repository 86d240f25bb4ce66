-- ===== src/System/Nonneg.antt =====
-- The quantities of the shops, however the service is driven.

use layer_backend.Platform.{Platform}
use layer_backend.World.{World}
use layer_backend.World.Keeps.{Keeps}
use layer_backend.Frames.Runs.{run-Keeps}
use layer_backend.Frames.Workers.{drained-Keeps}
use layer_backend.Frames.Ingest.{ignoring}
use layer_backend.Stock.Types.{StockTarget}
use layer_backend.Stock.Recalculate.{run}
use layer_backend.Stock.Quantities.Nonneg.{IsNonneg, apply_stock_event-Secures-IsNonneg}
use layer_backend.System.Steps.{Reach}
use layer_backend.System.Keeps.{Reach-Keeps}

module _ (p : Platform) where
  runs : (t : StockTarget) → Keeps p (IsNonneg p) (run p t)
  runs = run-Keeps p (λ db t h. h) (λ db t h. h) (λ db t h. h)

  -- However the service is driven, no shop ever holds a negative quantity if none did at the start.
  pub Reach-IsNonneg : (w v : World p) → Reach p w v → IsNonneg p w.db → IsNonneg p v.db
  Reach-IsNonneg w v r h =
      Reach-Keeps p (IsNonneg p) runs (drained-Keeps p (λ db t h. h) (λ db t h. h))
        (ignoring p (λ db t h. h)) (apply_stock_event-Secures-IsNonneg p) (λ db t h. h)
        (λ db t h. h) (λ db t h. h) (λ db t h. h) r h
