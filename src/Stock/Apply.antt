-- ===== src/Stock/Apply.antt =====
-- stock.shop-resolver.service.ts, stock.apply-stock.service.ts and stock.apply-catalogue.service.ts:
-- what a message of Business Central changes, inside the caller's transaction.
use layer_backend.Base.{ℕ, String, Option, none, some, List, [], ◌∷◌, or_else, ◌<>◌, if◌then◌else◌}
use layer_backend.Base.Int.{pos, max_zero}
use layer_backend.Exec.{pure, rethrow, for_all, ◌>>=◌, ◌>>◌}
use layer_backend.Platform.{Platform, pair_of_ids}
use layer_backend.World.{M}
use layer_backend.Stock.Types.{
  ProductCatalogueCommand, SeasonCommand, StockLine, StockUpdateCommand, StockTarget, ResolvedShop,
  unassigned_region_code, unassigned_region_name, default_safety_buffer,
}
use layer_backend.Stock.Repositories.Shops.{find_by_code, ensure_by_code, ensure_unmapped}
use layer_backend.Stock.Repositories.ShopStocks.{set_quantity, adjust_quantity}
use layer_backend.Stock.Repositories.Catalogue.{
  ensure_by_name, upsert_product, ensure_exists, upsert_variant, ensure_for_stock,
}
use layer_backend.Stock.Repositories.Tasks.{identity}

-- `targets.set(key, target)`: a `Map` keeps the place of a key's first entry and its last value.
unfoldable pub set_target : StockTarget → List StockTarget → List StockTarget
set_target target [] = target ∷ []
set_target target (t ∷ ts) =
    if pair_of_ids.same (identity t) (identity target)
    then target ∷ ts
    else t ∷ set_target target ts

module _ (p : Platform) where
  -- `resolveOrCreate` once the shop was looked up.
  unfoldable pub create_shop : String → Option ResolvedShop → M p ResolvedShop
  create_shop shop_code (some existing) = pure existing
  create_shop shop_code none = do
    region ← ensure_by_code p unassigned_region_code unassigned_region_name default_safety_buffer
    ensure_unmapped p shop_code region.0

  -- `StockShopResolverService.resolve`.
  unfoldable pub resolve : String → M p ResolvedShop
  resolve shop_code =
      rethrow ("[StockShopResolverService]Resolving shop " <> shop_code <> " was failed")
        (find_by_code p shop_code >>= create_shop shop_code)

  -- The write of `applyLine`: absolute, or by a delta that is zero if it is missing.
  unfoldable pub write_line : ℕ → String → StockLine → M p (Unit {0})
  write_line variant_id shop_code line = elim line.quantity [
    | some quantity ↦ set_quantity p variant_id shop_code (max_zero quantity)
    | none ↦ adjust_quantity p variant_id shop_code (or_else line.quantity_delta (pos 0))
  ]

  -- `applyLine`.
  unfoldable pub apply_line : String → StockLine → M p StockTarget
  apply_line sku line = do
    variant_id ← ensure_for_stock p sku line.variant_code
    shop ← resolve line.shop_code
    write_line variant_id shop.code line
    pure (record {
      variant_id = variant_id;
      sku = sku;
      variant_code = line.variant_code;
      region_id = shop.region_id;
      region_code = shop.region_code;
    })

  -- The loop of `StockApplyStockService.apply`.
  unfoldable pub apply_lines : String → List StockLine → List StockTarget → M p (List StockTarget)
  apply_lines sku [] targets = pure targets
  apply_lines sku (line ∷ lines) targets = do
    target ← apply_line sku line
    apply_lines sku lines (set_target target targets)

  -- `StockApplyStockService.apply`.
  unfoldable pub apply_stock : StockUpdateCommand → M p (List StockTarget)
  apply_stock command =
      rethrow ("[StockApplyStockService]Applying stock for " <> command.sku <> " was failed")
        do ensure_exists p command.sku; apply_lines command.sku command.lines []

  -- The season of a catalogue message, where it names one.
  unfoldable pub ensure_season : Option SeasonCommand → M p (Option ℕ)
  ensure_season none = pure none
  ensure_season (some season) = do id ← ensure_by_name p season; pure (some id)

  -- `StockApplyCatalogueService.apply`.
  unfoldable pub apply_catalogue : ProductCatalogueCommand → M p (Unit {0})
  apply_catalogue command =
      rethrow
        ("[StockApplyCatalogueService]Applying the catalogue for " <> command.sku <> " was failed")
        do
          season_id ← ensure_season command.season
          upsert_product p command season_id
          for_all (upsert_variant p command.sku) command.variants
