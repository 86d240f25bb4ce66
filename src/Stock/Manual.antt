-- ===== src/Stock/Manual.antt =====
-- The recalculation of a variant on demand: recalculateVariant and runRecalculationForVariant of
-- stock.service.ts, and findWithRegions of product-variant.repository.ts.
use layer_backend.Base.{ℕ, String, Option, none, some, List, map, ◌≡◌, ◌==◌}
use layer_backend.Exec.{Result, ok, err}
use layer_backend.Schema.{ProductVariant}
use layer_backend.Platform.{Platform}
use layer_backend.World.{World, Db, M}
use layer_backend.Stock.Types.{StockRecalculationResult}
use layer_backend.Stock.Repositories.Catalogue.{region_of}
use layer_backend.Stock.Service.{recalculate_region}
use layer_backend.Stock.Targets.{AreDistinctRegions, lists_region}

module _ (p : Platform) (sku variant_code : String) where
  abbrev variant_row : Db p → Option ProductVariant
  variant_row db = p.product_variant.find_unique (sku, variant_code) db.variants

  -- The regions of the shops that hold a variant, one for each of its stocks.
  abbrev pub regions_of : Db p → ℕ → List (ℕ × String)
  regions_of db id =
      map (region_of p db) (p.shop_stock.find_many (λ r. r.0.0 == id) (λ r. 0) none db.shop_stocks)

  -- What is looked up of a variant.
  abbrev Found : World p → Result (ℕ × List (ℕ × String)) × World p → Type 0
  Found w (ok found, w') =
      (row : ProductVariant) × (variant_row w.db ≡ some row)
      × (found ≡ (row.id, regions_of w.db row.id))
  Found w (err e, w') = Unit

  abbrev code_of : StockRecalculationResult → String
  code_of r = r.region_code

  -- One region has been calculated.
  abbrev Calculated : String → Result StockRecalculationResult × World p → Type 0
  Calculated code (ok r, w') = code_of r ≡ code
  Calculated code (err e, w') = Unit

  -- All regions have been calculated, in their order.
  abbrev AllCalculated :
      List (ℕ × String) → Result (List StockRecalculationResult) × World p → Type 0
  AllCalculated regions (ok rs, w') = map code_of rs ≡ map (λ (r : ℕ × String). r.1) regions
  AllCalculated regions (err e, w') = Unit

  module _ (id : ℕ) where
    abbrev each : ℕ × String → M p StockRecalculationResult
    each = recalculate_region p id sku variant_code

  -- How a recalculation on demand has ended: if it resolves, the variant is known and there is one
  -- result for each of a list of regions, in which no region is twice and which has exactly the
  -- regions of the shops that held the variant.
  abbrev pub Recalculates : World p → Result (List StockRecalculationResult) × World p → Type 0
  Recalculates w (ok rs, w') =
      (row : ProductVariant) × (variant_row w.db ≡ some row)
      × (regions : List (ℕ × String)) × AreDistinctRegions regions
      × ((id : ℕ) → lists_region id regions ≡ lists_region id (regions_of w.db row.id))
      × (map code_of rs ≡ map (λ (r : ℕ × String). r.1) regions)
  Recalculates w (err e, w') = Unit
