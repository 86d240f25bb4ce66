-- ===== src/Stock/Pairs.antt =====
-- The pairs of a variant and a region that the lines of a stock message are about, and the region
-- that stock.shop-resolver.service.ts finds for a shop.
pub mod Targets
use layer_backend.Base.{
  ℕ, ◌≤◌, String, Bool, false, ◌||◌, Option, none, some, List, [], ◌∷◌, length, ◌≡◌, refl, subst,
  arith, ap, sym, ◌∙◌, or_else,
}
use layer_backend.Base.Int.{pos, max_zero}
use layer_backend.Exec.{Result, ok, err, pure, rethrow, for_all, ◌>>=◌, ◌>>◌}
use layer_backend.Schema.{Shop, RecalculationReason}
use layer_backend.Platform.{Platform, pair_of_ids}
use layer_backend.Platform.Laws.{find_unique-upsert}
use layer_backend.World.{World, Db, M, call, query, returning}
use layer_backend.World.Ends.{bind-ends, rethrow-ends}
use layer_backend.World.Keeps.{Keeps, Keeps-bind, Keeps-returning, keeps_rules}
use layer_backend.Frames.Tables.{
  find_by_code-Keeps, ensure_by_code-Keeps, ensure_for_stock-Keeps, enqueue_task-Keeps,
  set_quantity-Keeps, adjust_quantity-Keeps,
}
use layer_backend.Stock.Types.{StockLine, StockTarget, StockUpdateCommand, ResolvedShop}
use layer_backend.Stock.Repositories.Shops.{find_by_code, ensure_by_code, ensure_unmapped}
use layer_backend.Stock.Repositories.Catalogue.{ensure_exists, ensure_for_stock}
use layer_backend.Stock.Repositories.Tasks.{identity, enqueue}
use layer_backend.Stock.Repositories.ShopStocks.{set_quantity, adjust_quantity}
use layer_backend.Stock.Apply.{
  create_shop, resolve, write_line, apply_line, apply_lines, apply_stock, set_target,
}
use layer_backend.Stock.Service as Service
use layer_backend.Stock.Quantities.Ids.{
  variant_id, Knows, FindsVariant, ensure_for_stock-FindsVariant, write_line-Keeps-Knows,
  resolve-Keeps-Knows, apply_lines-Keeps-Knows,
}
use layer_backend.Stock.Targets.{
  targets_pair, targets_pair-set_target, AreDistinct, Bounded, apply_stock-Bounded,
}

module _ (p : Platform) where
  abbrev region_of : Option Shop → Option ℕ
  region_of none = none
  region_of (some shop) = some shop.region_id

  -- The region of a shop.
  abbrev pub shop_region : Db p → String → Option ℕ
  shop_region db code = region_of (p.shop.find_unique code db.shops)

  abbrev same_pair : Option ℕ → Option ℕ → ℕ × ℕ → Bool
  same_pair (some v) (some r) k = pair_of_ids.same (v, r) k
  same_pair _ _ k = false

  -- Whether a line of a product is about a pair: the ids of its variant and of its shop's region.
  abbrev pub names_pair : Db p → String → StockLine → ℕ × ℕ → Bool
  names_pair db sku line k =
      same_pair (variant_id p db sku line.variant_code) (shop_region db line.shop_code) k

  -- Whether a line of a message is about a pair.
  abbrev pub affects : Db p → String → List StockLine → ℕ × ℕ → Bool
  affects db sku [] k = false
  affects db sku (line ∷ lines) k = names_pair db sku line k || affects db sku lines k

  -- The shop is in the region.
  abbrev pub Belongs : String → ℕ → Db p → Type 0
  Belongs code r db = shop_region db code ≡ some r

  ensured-Belongs :
      (code : String) (new : Shop) (j : String) (r : ℕ) (db : Db p)
      → Belongs j r db
      → Belongs j r (record db { shops = p.shop.upsert code new (λ s. s) db.shops })
  ensured-Belongs code new j r db h =
      ground (arith, find_unique-upsert p.shop code j new (λ s. s) db.shops)

  ensure_unmapped-Keeps-Belongs :
      (code : String) (region_id : ℕ) (j : String) (r : ℕ)
      → Keeps p (Belongs j r) (ensure_unmapped p code region_id)
  unfolding ensure_unmapped
  ensure_unmapped-Keeps-Belongs code region_id j r =
      search (keeps_rules, Keeps-returning, ensured-Belongs)

  create_shop-Keeps-Belongs :
      (code : String) (found : Option ResolvedShop) (j : String) (r : ℕ)
      → Keeps p (Belongs j r) (create_shop p code found)
  unfolding create_shop
  create_shop-Keeps-Belongs code none j r =
      search (keeps_rules, ensure_by_code-Keeps, ensure_unmapped-Keeps-Belongs)
  create_shop-Keeps-Belongs code (some shop) j r = search keeps_rules

  resolve-Keeps-Belongs : (code j : String) (r : ℕ) → Keeps p (Belongs j r) (resolve p code)
  unfolding resolve
  resolve-Keeps-Belongs code j r =
      search (keeps_rules, find_by_code-Keeps, create_shop-Keeps-Belongs)

  pub write_line-Keeps-Belongs :
      (id : ℕ) (code : String) (line : StockLine) (j : String) (r : ℕ)
      → Keeps p (Belongs j r) (write_line p id code line)
  unfolding write_line
  write_line-Keeps-Belongs id code line j r =
      elim line.quantity
        as (λ n. Keeps p (Belongs j r) (elim n [
          | some n ↦ set_quantity p id code (max_zero n)
          | none ↦ adjust_quantity p id code (or_else line.quantity_delta (pos 0))
        ])) [
          | none ↦ adjust_quantity-Keeps p (λ db t h. h) id code _
          | some n ↦ set_quantity-Keeps p (λ db t h. h) id code _
        ]

  apply_line-Keeps-Belongs :
      (sku : String) (line : StockLine) (j : String) (r : ℕ)
      → Keeps p (Belongs j r) (apply_line p sku line)
  unfolding apply_line
  apply_line-Keeps-Belongs sku line j r =
      search (keeps_rules, ensure_for_stock-Keeps, resolve-Keeps-Belongs, write_line-Keeps-Belongs)
        depth 9

  pub apply_lines-Keeps-Belongs :
      (sku : String) (lines : List StockLine) (ts : List StockTarget) (j : String) (r : ℕ)
      → Keeps p (Belongs j r) (apply_lines p sku lines ts)
  unfolding apply_lines
  apply_lines-Keeps-Belongs sku [] ts j r = search keeps_rules
  apply_lines-Keeps-Belongs sku (l ∷ ls) ts j r =
      Keeps-bind p _ _ (apply_line-Keeps-Belongs sku l j r)
        (λ t. apply_lines-Keeps-Belongs sku ls (set_target t ts) j r)

  -- A shop that is found is in the region that it is said to be in.
  abbrev pub FindsRegion : String → Result ResolvedShop × World p → Type 0
  FindsRegion code (ok shop, w') = Belongs code shop.region_id w'.db
  FindsRegion code (err e, w') = Unit

  pub resolve-FindsRegion : (code : String) (w : World p) → FindsRegion code (resolve p code w)
  unfolding resolve find_by_code create_shop ensure_by_code ensure_unmapped query returning call
      rethrow
  resolve-FindsRegion code w = ground arith
