-- ===== src/Stock/Read/Shown.antt =====
-- The variant of a SKU with its stocks and results, as stock.read.service.ts answers it.
use layer_backend.Base.{String, Option, none, some, List, map, ◌≡◌, refl, ap, subst, ◌==◌, ℕ}
use layer_backend.Schema.{ProductVariant, Region, Shop, ShopStock, EcomStock}
use layer_backend.Platform.{Platform}
use layer_backend.World.{Db}
use layer_backend.World.Reads.{}
use layer_backend.Joins.{JoinedStock, JoinedResult, join_stock, join_result, results_of}
use layer_backend.Joins.Rows.{All2, All2-all_some, join_stock-StockAt, join_result-ResultAt}
use layer_backend.Stock.Repositories.Shops.{region_by_id}
use layer_backend.Stock.Read.{
  ShopStockResponse, EcomStockResponse, VariantStockResponse, to_shop_response, to_ecom_response,
  unordered_stocks, with_stocks, JoinedVariant, join_variant, to_variant_response,
}

module _ (p : Platform) where
  -- A stock with its shop.
  abbrev ShowsStock : Db p → (ℕ × String) × ShopStock → ShopStockResponse → Type 0
  ShowsStock db ((variant_id, code), stock) s =
      (shop : Shop) × (p.shop.find_unique code db.shops ≡ some shop)
      × (s.shop_code ≡ code)
      × (s.shop_name ≡ shop.name)
      × (s.included_in_ecom ≡ shop.included_in_ecom)
      × (s.quantity ≡ stock.quantity)
      × (s.reported_at ≡ stock.reported_at)

  -- A result with its region.
  abbrev ShowsResult : Db p → (ℕ × ℕ) × EcomStock → EcomStockResponse → Type 0
  ShowsResult db ((variant_id, region_id), stock) e =
      (region : String × Region) × (region_by_id p region_id db ≡ some region)
      × (e ≡ record {
        region_code = region.0;
        region_name = region.1.name;
        quantity = stock.quantity;
        shops_total = stock.shops_total;
        safety_buffer = stock.safety_buffer;
        reserved = stock.reserved;
        reservations_stale = stock.reservations_stale;
        published_quantity = stock.published_quantity;
        calculated_at = stock.calculated_at;
        published_at = stock.published_at;
      })

  -- A variant with its columns, all of its stocks and all of its results, at a price.
  abbrev pub ShowsVariant :
      Db p → Option String → (String × String) × ProductVariant → VariantStockResponse → Type 0
  ShowsVariant db price ((sku_of, code), row) v =
      (v.variant_code ≡ code)
      × (v.barcode_no ≡ row.barcode_no)
      × (v.color ≡ row.color)
      × (v.size ≡ row.size)
      × (v.price ≡ price)
      × All2 (ShowsStock db)
          (p.shop_stock.find_many (λ r. r.0.0 == row.id) (λ r. 0) none db.shop_stocks) v.shops
      × All2 (ShowsResult db)
          (p.ecom_stock.find_many (λ r. r.0.0 == row.id) (λ r. 0) none db.ecom_stocks) v.ecom

  shows_stocks :
      (db : Db p) (id : ℕ) (stocks : List JoinedStock)
      → unordered_stocks p db id ≡ some stocks
      → All2
          (ShowsStock db)
          (p.shop_stock.find_many (λ r. r.0.0 == id) (λ r. 0) none db.shop_stocks)
          (map to_shop_response stocks)
  unfolding unordered_stocks
  shows_stocks db id stocks e =
      All2-all_some (ShowsStock db) (join_stock p db) to_shop_response
        (λ r j h.
          let (shop, region, known, there, is) = join_stock-StockAt p db r j h in
          (
            shop,
            known,
            ap (λ x. x.shop.code) is,
            ap (λ x. x.shop.name) is,
            ap (λ x. x.shop.included_in_ecom) is,
            ap (λ x. x.quantity) is,
            ap (λ x. x.reported_at) is,
          ))
        _ stocks e

  shows_results :
      (db : Db p) (id : ℕ) (results : List JoinedResult)
      → results_of p db id ≡ some results
      → All2
          (ShowsResult db)
          (p.ecom_stock.find_many (λ r. r.0.0 == id) (λ r. 0) none db.ecom_stocks)
          (map to_ecom_response results)
  unfolding results_of
  shows_results db id results e =
      All2-all_some (ShowsResult db) (join_result p db) to_ecom_response
        (λ r j h.
          let (region, known, is) = join_result-ResultAt p db r j h in
          (region, known, ap to_ecom_response is))
        _ results e

  pub shows_variant :
      (db : Db p) (price : Option String) (r : (String × String) × ProductVariant)
      (j : JoinedVariant)
      → join_variant p db r ≡ some j
      → ShowsVariant db price r (to_variant_response price j)
  shows_variant db price ((sku_of, code), row) j e =
      go (unordered_stocks p db row.id) (results_of p db row.id) refl refl e
    where
      go :
          (a : Option (List JoinedStock)) (b : Option (List JoinedResult))
          → unordered_stocks p db row.id ≡ a
          → results_of p db row.id ≡ b
          → with_stocks p db code row a b ≡ some j
          → ShowsVariant db price ((sku_of, code), row) (to_variant_response price j)
      go none b h k x = cc
      go (some stocks) none h k x = cc
      go (some stocks) (some results) h k x =
          subst (λ o. Shown o) x
            (
              refl,
              refl,
              refl,
              refl,
              refl,
              shows_stocks db row.id stocks h,
              shows_results db row.id results k,
            )
        where
          Shown : Option JoinedVariant → Type 0
          Shown none = ⊥
          Shown (some y) = ShowsVariant db price ((sku_of, code), row) (to_variant_response price y)
