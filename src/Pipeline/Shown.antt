-- ===== src/Pipeline/Shown.antt =====
-- What the trace of a variant shows of the tables: pipeline.service.ts and pipeline.repository.ts.
use layer_backend.Base.{
  ℕ, String, not, Option, none, some, List, map, ◌≡◌, ◌&&◌, ◌==◌, str_eq, select,
}
use layer_backend.Exec.{Result}
use layer_backend.Schema.{
  Region, Shop, ProductVariant, ShopStock, EcomStock, RecalculationTaskStatus,
}
use layer_backend.Platform.{Platform, sort_with, sort_by, limit}
use layer_backend.World.{World, Db}
use layer_backend.World.Reads.{ReadsTo}
use layer_backend.Stock.Repositories.Shops.{region_by_id}
use layer_backend.Stock.Repositories.Tasks.{has_status}
use layer_backend.Joins.{JoinedStock, JoinedResult}
use layer_backend.Joins.Rows.{All2}
use layer_backend.Pipeline.Response.{PipelineShopLine, PipelineCalculation, PipelineTrace}
use layer_backend.Pipeline.Repository.{
  VariantWithStock, has_key, newer_event, newer_row, earlier_shop,
}
use layer_backend.Pipeline.Service.{is_withheld, to_event_dto, to_outbox_dto, to_blocked_dto}
use layer_backend.Pipeline.Traces.{variant_row, Rejects, Traces}

module _ (p : Platform) where
  -- A stock with its shop and the region of its shop.
  abbrev ShowsStock : Db p → (ℕ × String) × ShopStock → PipelineShopLine → Type 0
  ShowsStock db ((variant_id, code), stock) line =
      (shop : Shop) × (region : String × Region) × (p.shop.find_unique code db.shops ≡ some shop)
      × (region_by_id p shop.region_id db ≡ some region)
      × (line.shop_code ≡ code)
      × (line.shop_name ≡ shop.name)
      × (line.region_code ≡ region.0)
      × (line.quantity ≡ stock.quantity)
      × (line.included_in_ecom ≡ shop.included_in_ecom)
      × (line.reported_at ≡ stock.reported_at)

  -- A result with its region.
  abbrev ShowsResult : Db p → (ℕ × ℕ) × EcomStock → PipelineCalculation → Type 0
  ShowsResult db ((variant_id, region_id), stock) c =
      (region : String × Region) × (region_by_id p region_id db ≡ some region)
      × (c ≡ record {
        region_code = region.0;
        region_name = region.1.name;
        shops_total = stock.shops_total;
        safety_buffer = stock.safety_buffer;
        reserved = stock.reserved;
        quantity = stock.quantity;
        published_quantity = stock.published_quantity;
        reservations_stale = stock.reservations_stale;
        withheld = is_withheld stock.published_quantity stock.quantity;
        calculated_at = stock.calculated_at;
        published_at = stock.published_at;
      })

  -- The stocks of a variant by the codes of their shops, and its results.
  abbrev stock_rows : Db p → ℕ → List ((ℕ × String) × ShopStock)
  stock_rows db id =
      sort_with (earlier_shop p) (select (λ r. r.0.0 == id) (p.shop_stock.rows db.shop_stocks))

  abbrev result_rows : Db p → ℕ → List ((ℕ × ℕ) × EcomStock)
  result_rows db id = p.ecom_stock.find_many (λ r. r.0.0 == id) (λ r. 0) none db.ecom_stocks

  -- The parts that a variant is assembled from.
  abbrev Parts :
      String
      → String
      → ProductVariant
      → Option (List JoinedStock)
      → Option (List JoinedResult)
      → VariantWithStock
      → Type 0
  Parts sku code row stocks results v =
      (v.id ≡ row.id)
      × (v.sku ≡ sku)
      × (v.variant_code ≡ code)
      × (stocks ≡ some v.stocks)
      × (results ≡ some v.ecom_stocks)

module _ (p : Platform) (sku variant_code : String) where
  -- What a trace shows: the variant's stocks and results, the 25 newest messages with a key that
  -- begins with the SKU, the 25 newest rows of the outbox for the SKU, and the variant's tasks that
  -- are not DONE.
  abbrev ShowsTables : Db p → PipelineTrace → Type 0
  ShowsTables db r =
      (row : ProductVariant) × (variant_row p sku variant_code db ≡ some row)
      × (r.sku ≡ sku)
      × (r.variant_code ≡ variant_code)
      × All2 (ShowsStock p db) (stock_rows p db row.id) r.shops
      × All2 (ShowsResult p db) (result_rows p db row.id) r.calculations
      × (r.events
          ≡ map (to_event_dto p) (
              limit (some 25)
                (sort_with newer_event (select (has_key p sku) (p.bc_event.rows db.events)))))
      × (r.outbox
          ≡ map to_outbox_dto (
              limit (some 25)
                (sort_with newer_row (select (λ o. str_eq o.1.sku sku) (p.outbox.rows db.outbox)))))
      × (r.blocked
          ≡ map to_blocked_dto (
              sort_by (λ t. 0)
                (select
                  (λ t. t.0.0 == row.id && not (has_status t.1.status RecalculationTaskStatus.done))
                  (p.task.rows db.tasks))))

  abbrev pub Answers : World p → Result PipelineTrace × World p → Type 0
  Answers w = ReadsTo p (ShowsTables w.db) (Rejects p sku variant_code w.db) w.db
