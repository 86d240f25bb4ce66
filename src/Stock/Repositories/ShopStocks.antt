-- ===== src/Stock/Repositories/ShopStocks.antt =====
-- shop-stock.repository.ts.
use layer_backend.Base.{ℕ, String, Bool, Option, none, some, ◌&&◌, ◌==◌, if◌then◌else◌}
use layer_backend.Base.Int.{ℤ, pos, ◌+ℤ◌, ltb_ℤ, max_zero}
use layer_backend.Exec.{◌>>=◌, ◌>>◌}
use layer_backend.Schema.{ShopStock}
use layer_backend.Platform.{Platform, stock_key}
use layer_backend.World.{Db, M, query, execute, now}

module _ (p : Platform) where
  -- `findQuantity`.
  unfoldable pub find_quantity : ℕ → String → M p (Option ℤ)
  find_quantity variant_id shop_code = query p λ db.
      elim (p.shop_stock.find_unique (variant_id, shop_code) db.shop_stocks) [
        | none ↦ none
        | some stock ↦ some stock.quantity
      ]

  -- `setQuantity`.
  unfoldable pub set_quantity : ℕ → String → ℤ → M p (Unit {0})
  set_quantity variant_id shop_code quantity = do
    reported_at ← now p
    execute p λ db. record db {
      shop_stocks =
          p.shop_stock.upsert (variant_id, shop_code)
            (record { quantity = quantity; reported_at = reported_at })
            (λ stock. record { quantity = quantity; reported_at = reported_at }) db.shop_stocks;
    }

  -- The first statement of `adjustQuantity`: the signed increment.
  unfoldable pub increment_quantity : ℕ → String → ℤ → ℕ → Db p → Db p
  increment_quantity variant_id shop_code delta reported_at db = record db {
    shop_stocks =
        p.shop_stock.upsert (variant_id, shop_code)
          (record { quantity = max_zero delta; reported_at = reported_at })
          (λ stock. record { quantity = stock.quantity +ℤ delta; reported_at = reported_at })
          db.shop_stocks;
  }

  -- The second: a negative quantity of the pair becomes zero.
  unfoldable pub clamp_quantity : ℕ → String → Db p → Db p
  clamp_quantity variant_id shop_code db = record db {
    shop_stocks =
        p.shop_stock.update_many
          (λ k stock. stock_key.same k (variant_id, shop_code) && ltb_ℤ stock.quantity (pos 0))
          (λ stock. record stock { quantity = pos 0 }) db.shop_stocks;
  }

  -- `adjustQuantity`.
  unfoldable pub adjust_quantity : ℕ → String → ℤ → M p (Unit {0})
  adjust_quantity variant_id shop_code delta = do
    reported_at ← now p
    execute p (increment_quantity variant_id shop_code delta reported_at)
    execute p (clamp_quantity variant_id shop_code)

  -- Whether a shop belongs to a region and feeds e-com.
  unfoldable pub feeds : ℕ → Db p → String → Bool
  feeds region_id db shop_code = elim (p.shop.find_unique shop_code db.shops) [
    | none ↦ Bool.false
    | some shop ↦ shop.region_id == region_id && shop.included_in_ecom
  ]

  -- What one row adds to the sum of a region.
  abbrev pub region_share : ℕ → ℕ → Db p → ℕ × String → ShopStock → ℤ
  region_share variant_id region_id db k stock =
      if k.0 == variant_id && feeds region_id db k.1 then stock.quantity else pos 0

  unfoldable pub region_sum : ℕ → ℕ → Db p → ℤ
  region_sum variant_id region_id db =
      p.shop_stock.sum (region_share variant_id region_id db) db.shop_stocks

  -- `sumForRegion`: the total held by the shops of a region that feed e-com.
  unfoldable pub sum_for_region : ℕ → ℕ → M p ℤ
  sum_for_region variant_id region_id = query p (region_sum variant_id region_id)
