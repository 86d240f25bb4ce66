-- ===== src/Stock/Service.antt =====
-- stock.service.ts: the facade of the stock module.
use layer_backend.Base.{ℕ, String, List, [], ◌∷◌, ◌<>◌, ◌==◌, if◌then◌else◌}
use layer_backend.Exec.{pure, settled, rethrow, for_all, for_each, ◌>>=◌, ◌>>◌}
use layer_backend.Schema.{RecalculationReason, RecalculationTaskStatus}
use layer_backend.Platform.{Platform}
use layer_backend.World.{M}
use layer_backend.Stock.Types.{
  ProductCatalogueCommand, StockUpdateCommand, StockTarget, StockRecalculationResult,
}
use layer_backend.Stock.Repositories.Tasks.{enqueue, count_by_status}
use layer_backend.Stock.Repositories.Catalogue.{find_with_regions}
use layer_backend.Stock.Apply
use layer_backend.Stock.Recalculate.{run}

-- `regions.set(regionId, bcCode)`.
unfoldable pub set_region : ℕ × String → List (ℕ × String) → List (ℕ × String)
set_region r [] = r ∷ []
set_region r (s ∷ ss) = if s.0 == r.0 then r ∷ ss else s ∷ set_region r ss

unfoldable pub distinct_regions : List (ℕ × String) → List (ℕ × String) → List (ℕ × String)
distinct_regions regions [] = regions
distinct_regions regions (r ∷ rs) = distinct_regions (set_region r regions) rs

module _ (p : Platform) where
  -- `applyCatalogue`.
  unfoldable pub apply_catalogue : ProductCatalogueCommand → M p (Unit {0})
  apply_catalogue command =
      rethrow ("[StockService]Applying the catalogue for " <> command.sku <> " was failed")
        (Apply.apply_catalogue p command)

  -- `applyStock`.
  unfoldable pub apply_stock : StockUpdateCommand → M p (List StockTarget)
  apply_stock command =
      rethrow ("[StockService]Applying stock for " <> command.sku <> " was failed") do
        targets ← Apply.apply_stock p command
        for_all (λ target. enqueue p target RecalculationReason.bc_stock) targets
        pure targets

  -- One round of `tryRecalculate`: an error is swallowed.
  unfoldable pub try_one : StockTarget → M p (Unit {0})
  try_one target = settled (run p target) λ r. pure tt

  -- `tryRecalculate`.
  unfoldable pub try_recalculate : List StockTarget → M p (Unit {0})
  try_recalculate = for_all try_one

  -- One round of `runRecalculationForVariant`.
  unfoldable pub recalculate_region :
      ℕ → String → String → ℕ × String → M p StockRecalculationResult
  recalculate_region variant_id sku variant_code (region_id, region_code) = do
    let target : StockTarget = record {
      variant_id = variant_id;
      sku = sku;
      variant_code = variant_code;
      region_id = region_id;
      region_code = region_code;
    }
    enqueue p target RecalculationReason.manual_request
    run p target

  -- `runRecalculationForVariant`.
  unfoldable pub run_for_variant : String → String → M p (List StockRecalculationResult)
  run_for_variant sku variant_code = do
    found ← find_with_regions p sku variant_code
    for_each (recalculate_region found.0 sku variant_code) (distinct_regions [] found.1)

  -- `recalculateVariant`.
  unfoldable pub recalculate_variant : String → String → M p (List StockRecalculationResult)
  recalculate_variant sku variant_code =
      rethrow ("[StockService]Recalculating " <> sku <> "/" <> variant_code <> " was failed")
        (run_for_variant sku variant_code)

  -- `countBlockedCalculations`: the pending and the abandoned tasks.
  unfoldable pub count_blocked_calculations : M p (ℕ × ℕ)
  count_blocked_calculations = do
    pending ← count_by_status p RecalculationTaskStatus.pending
    abandoned ← count_by_status p RecalculationTaskStatus.abandoned
    pure (pending, abandoned)
