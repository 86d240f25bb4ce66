-- ===== src/Stock/Quantities/Ids.antt =====
-- What a line of a stock message is resolved to: the id of its variant, and the code of its shop.
use layer_backend.Base.{ℕ, String, Option, none, some, List, [], ◌∷◌, ◌≡◌, arith, or_else}
use layer_backend.Base.Int.{pos, max_zero}
use layer_backend.Exec.{Result, ok, err, rethrow}
use layer_backend.Schema.{ProductVariant}
use layer_backend.Platform.{Platform}
use layer_backend.Platform.Laws.{find_unique-upsert}
use layer_backend.World.{World, Db, call, query, returning}
use layer_backend.World.Keeps.{Keeps, Keeps-bind, Keeps-returning, keeps_rules}
use layer_backend.Frames.Tables.{set_quantity-Keeps, adjust_quantity-Keeps}
use layer_backend.Frames.Messages.{resolve-Keeps}
use layer_backend.Stock.Types.{StockLine, StockTarget, ResolvedShop}
use layer_backend.Stock.Repositories.Shops.{find_by_code, ensure_by_code, ensure_unmapped}
use layer_backend.Stock.Repositories.ShopStocks.{set_quantity, adjust_quantity}
use layer_backend.Stock.Repositories.Catalogue.{ensure_for_stock}
use layer_backend.Stock.Apply.{
  create_shop, resolve, write_line, apply_line, apply_lines, set_target,
}

module _ (p : Platform) where
  abbrev pub id_of : Option ProductVariant → Option ℕ
  id_of none = none
  id_of (some variant) = some variant.id

  -- The id of a variant.
  abbrev pub variant_id : Db p → String → String → Option ℕ
  variant_id db sku code = id_of (p.product_variant.find_unique (sku, code) db.variants)

  -- The variant is known under an id.
  abbrev pub Knows : String → String → ℕ → Db p → Type 0
  Knows sku code v db = variant_id db sku code ≡ some v

  ensured-Knows :
      (sku code : String) (new : ProductVariant) (j jcode : String) (v : ℕ) (db : Db p)
      → Knows j jcode v db
      → Knows j jcode v (record db {
        variants = p.product_variant.upsert (sku, code) new (λ old. old) db.variants;
      })
  ensured-Knows sku code new j jcode v db h = ground (
    arith,
    find_unique-upsert p.product_variant (sku, code) (j, jcode) new (λ old. old) db.variants,
  )

  ensure_for_stock-Keeps-Knows :
      (sku code j jcode : String) (v : ℕ) → Keeps p (Knows j jcode v) (ensure_for_stock p sku code)
  unfolding ensure_for_stock
  ensure_for_stock-Keeps-Knows sku code j jcode v =
      search (keeps_rules, Keeps-returning, ensured-Knows) depth 8

  pub write_line-Keeps-Knows :
      (id : ℕ) (shop : String) (line : StockLine) (j jcode : String) (v : ℕ)
      → Keeps p (Knows j jcode v) (write_line p id shop line)
  unfolding write_line
  write_line-Keeps-Knows id shop line j jcode v =
      elim line.quantity
        as (λ n. Keeps p (Knows j jcode v) (elim n [
          | some n ↦ set_quantity p id shop (max_zero n)
          | none ↦ adjust_quantity p id shop (or_else line.quantity_delta (pos 0))
        ])) [
          | none ↦ adjust_quantity-Keeps p (λ db t h. h) id shop _
          | some n ↦ set_quantity-Keeps p (λ db t h. h) id shop _
        ]

  pub resolve-Keeps-Knows :
      (shop j jcode : String) (v : ℕ) → Keeps p (Knows j jcode v) (resolve p shop)
  resolve-Keeps-Knows shop j jcode v = resolve-Keeps p (λ db t h. h) (λ db t h. h) shop

  pub apply_line-Keeps-Knows :
      (sku : String) (line : StockLine) (j jcode : String) (v : ℕ)
      → Keeps p (Knows j jcode v) (apply_line p sku line)
  unfolding apply_line
  apply_line-Keeps-Knows sku line j jcode v =
      search
        (keeps_rules, ensure_for_stock-Keeps-Knows, resolve-Keeps-Knows, write_line-Keeps-Knows)
        depth 9

  -- A variant that is known keeps its id, whatever lines are applied.
  pub apply_lines-Keeps-Knows :
      (sku : String) (lines : List StockLine) (ts : List StockTarget) (j jcode : String) (v : ℕ)
      → Keeps p (Knows j jcode v) (apply_lines p sku lines ts)
  unfolding apply_lines
  apply_lines-Keeps-Knows sku [] ts j jcode v = search keeps_rules
  apply_lines-Keeps-Knows sku (l ∷ ls) ts j jcode v =
      Keeps-bind p _ _ (apply_line-Keeps-Knows sku l j jcode v)
        (λ t. apply_lines-Keeps-Knows sku ls (set_target t ts) j jcode v)

  -- The variant of a line is known under the id that it is resolved to.
  abbrev pub FindsVariant : String → String → Result ℕ × World p → Type 0
  FindsVariant sku code (ok v, w') = Knows sku code v w'.db
  FindsVariant sku code (err e, w') = Unit

  pub ensure_for_stock-FindsVariant :
      (sku code : String) (w : World p) → FindsVariant sku code (ensure_for_stock p sku code w)
  unfolding ensure_for_stock returning call
  ensure_for_stock-FindsVariant sku code w = ground arith

  abbrev pub FindsShop : String → Result ResolvedShop × World p → Type 0
  FindsShop code (ok shop, w') = shop.code ≡ code
  FindsShop code (err e, w') = Unit

  pub resolve-FindsShop : (code : String) (w : World p) → FindsShop code (resolve p code w)
  unfolding resolve find_by_code create_shop ensure_by_code ensure_unmapped query returning call
      rethrow
  resolve-FindsShop code w = ground arith
