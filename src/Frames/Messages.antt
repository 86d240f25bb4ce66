-- ===== src/Frames/Messages.antt =====
-- The tables that a message of Business Central writes.
use layer_backend.Base.Int.{pos, max_zero}
use layer_backend.Base.{ℕ, or_else, String, Option, none, some, List, [], ◌∷◌}
use layer_backend.Platform.{Platform}
use layer_backend.World.{Db}
use layer_backend.World.Keeps.{Keeps, Keeps-bind, keeps_rules}
use layer_backend.Frames.Writes.{
  IgnoresRegions, IgnoresShops, IgnoresSeasons, IgnoresProducts, IgnoresVariants, IgnoresShopStocks,
  IgnoresTasks,
}
use layer_backend.Frames.Tables.{
  find_by_code-Keeps, ensure_by_code-Keeps, ensure_unmapped-Keeps, ensure_by_name-Keeps,
  upsert_product-Keeps, upsert_variant-Keeps, ensure_exists-Keeps, ensure_for_stock-Keeps,
  set_quantity-Keeps, adjust_quantity-Keeps, enqueue_task-Keeps,
}
use layer_backend.Stock.Recalculate.{run}
use layer_backend.Stock.Types.{
  ResolvedShop, StockTarget, SeasonCommand, ProductCatalogueCommand, StockLine, StockUpdateCommand,
}
use layer_backend.Stock.Repositories.ShopStocks.{set_quantity, adjust_quantity}
use layer_backend.Stock.Apply.{
  create_shop, resolve, ensure_season, apply_catalogue, set_target, write_line, apply_line,
  apply_lines, apply_stock,
}
use layer_backend.Stock.Service as Service

module _ (p : Platform) {P : Db p → Type 0} where
  create_shop-Keeps :
      IgnoresRegions p P
      → IgnoresShops p P
      → (code : String) (found : Option ResolvedShop) → Keeps p P (create_shop p code found)
  unfolding create_shop
  create_shop-Keeps r s code none =
      search (keeps_rules, ensure_by_code-Keeps, ensure_unmapped-Keeps)
  create_shop-Keeps r s code (some shop) = search keeps_rules

  pub resolve-Keeps :
      IgnoresRegions p P → IgnoresShops p P → (code : String) → Keeps p P (resolve p code)
  unfolding resolve
  resolve-Keeps r s code = search (keeps_rules, find_by_code-Keeps, create_shop-Keeps)

  ensure_season-Keeps :
      IgnoresSeasons p P → (c : Option SeasonCommand) → Keeps p P (ensure_season p c)
  unfolding ensure_season
  ensure_season-Keeps s none = search keeps_rules
  ensure_season-Keeps s (some c) = search (keeps_rules, ensure_by_name-Keeps)

  -- A catalogue message writes seasons, products and variants, and nothing else.
  pub apply_catalogue-Keeps :
      IgnoresSeasons p P
      → IgnoresProducts p P
      → IgnoresVariants p P
      → (c : ProductCatalogueCommand) → Keeps p P (Service.apply_catalogue p c)
  unfolding Service.apply_catalogue apply_catalogue
  apply_catalogue-Keeps s pr v c =
      search (keeps_rules, ensure_season-Keeps, upsert_product-Keeps, upsert_variant-Keeps) depth 9

  -- A stock command writes regions, shops, products, variants, quantities and tasks.
  module _ (r : IgnoresRegions p P) (s : IgnoresShops p P) (pr : IgnoresProducts p P)
      (v : IgnoresVariants p P) (q : IgnoresShopStocks p P) where
    write_line-Keeps :
        (variant_id : ℕ) (code : String) (line : StockLine)
        → Keeps p P (write_line p variant_id code line)
    unfolding write_line
    write_line-Keeps variant_id code line =
        elim line.quantity
          as (λ n. Keeps p P (elim n [
            | some n ↦ set_quantity p variant_id code (max_zero n)
            | none ↦ adjust_quantity p variant_id code (or_else line.quantity_delta (pos 0))
          ])) [
            | none ↦ adjust_quantity-Keeps p q variant_id code _
            | some n ↦ set_quantity-Keeps p q variant_id code _
          ]

    apply_line-Keeps : (sku : String) (line : StockLine) → Keeps p P (apply_line p sku line)
    unfolding apply_line
    apply_line-Keeps sku line =
        search (keeps_rules, ensure_for_stock-Keeps, resolve-Keeps, write_line-Keeps) depth 9

    apply_lines-Keeps :
        (sku : String) (lines : List StockLine) (ts : List StockTarget)
        → Keeps p P (apply_lines p sku lines ts)
    unfolding apply_lines
    apply_lines-Keeps sku [] ts = search keeps_rules
    apply_lines-Keeps sku (l ∷ ls) ts =
        Keeps-bind p _ _ (apply_line-Keeps sku l) (λ t. apply_lines-Keeps sku ls (set_target t ts))

    pub apply_stock-Keeps : (c : StockUpdateCommand) → Keeps p P (apply_stock p c)
    unfolding apply_stock
    apply_stock-Keeps c = search (keeps_rules, ensure_exists-Keeps, apply_lines-Keeps) depth 8

    pub apply_and_queue-Keeps :
        IgnoresTasks p P → (c : StockUpdateCommand) → Keeps p P (Service.apply_stock p c)
    unfolding Service.apply_stock
    apply_and_queue-Keeps k c = search (keeps_rules, apply_stock-Keeps, enqueue_task-Keeps) depth 8

  -- What every calculation keeps, a series of them keeps.
  module _ (runs : (t : StockTarget) → Keeps p P (run p t)) where
    try_one-Keeps : (t : StockTarget) → Keeps p P (Service.try_one p t)
    unfolding Service.try_one
    try_one-Keeps t = search (keeps_rules, runs)

    pub try_recalculate-Keeps : (ts : List StockTarget) → Keeps p P (Service.try_recalculate p ts)
    unfolding Service.try_recalculate
    try_recalculate-Keeps ts = search (keeps_rules, try_one-Keeps)
