-- ===== src/Ecom/Service.antt =====
-- ecom.service.ts: the facade of the ecom module.
use layer_backend.Base.{ℕ, suc, String, Bool, Option, ◌<>◌}
use layer_backend.Base.Int.{ℤ, pos, negsuc}
use layer_backend.Exec.{rethrow, modify}
use layer_backend.Schema.{EcomStock}
use layer_backend.Platform.{Platform}
use layer_backend.World.{M}
use layer_backend.Stock.Types.{StockTarget, StockCalculationResult}
use layer_backend.Ecom.Repositories as Repositories
use layer_backend.Ecom.Repositories.{find_current, upsert, enqueue}

-- `${sku}/${variantCode} in ${regionCode}`.
abbrev pub describe_target : StockTarget → String
describe_target t = t.sku <> "/" <> t.variant_code <> " in " <> t.region_code

module _ (p : Platform) where
  -- `getCurrent`.
  unfoldable pub get_current : ℕ → ℕ → M p (Option EcomStock)
  get_current variant_id region_id = find_current p variant_id region_id

  -- `saveCalculated`.
  unfoldable pub save_calculated :
      StockTarget → StockCalculationResult → Bool → Bool → M p (Unit {0})
  save_calculated target value stale published =
      rethrow
        ("[EcomService]Storing the calculated stock for "
          <> describe_target target
          <> " was failed")
        (upsert p target value stale published)

  -- `${quantity}`.
  abbrev quantity_text : ℤ → String
  quantity_text (pos n) = p.print n
  quantity_text (negsuc n) = "-" <> p.print (suc n)

  -- `enqueuePublication`.
  unfoldable pub enqueue_publication : StockTarget → ℤ → M p (Unit {0})
  enqueue_publication target quantity =
      rethrow
        ("[EcomService]Queueing "
          <> quantity_text quantity
          <> " for "
          <> describe_target target
          <> " was failed")
        (enqueue p target quantity)

  -- `publishSoon`: the drain is started and not waited for.
  unfoldable pub publish_soon : M p (Unit {0})
  publish_soon = modify λ w. record w { scheduled = suc w.scheduled }

  -- `countStale`.
  unfoldable pub count_stale : M p ℕ
  count_stale = Repositories.count_stale p
