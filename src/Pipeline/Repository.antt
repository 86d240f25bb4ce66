-- ===== src/Pipeline/Repository.antt =====
-- pipeline.repository.ts: the queries of the pipeline view.
use layer_backend.Base.{
  ℕ, String, Bool, true, false, Option, none, some, List, ◌&&◌, not, ◌==◌, leb, str_eq, map,
  if◌then◌else◌,
}
use layer_backend.Exec.{or_throw, ◌>>=◌}
use layer_backend.Schema.{
  ProductVariant, ShopStock, StockRecalculationTask, RecalculationTaskStatus, BcEvent,
  EcomStockOutbox,
}
use layer_backend.Platform.{Platform}
use layer_backend.World.{Db, M, query}
use layer_backend.Stock.Repositories.Tasks.{has_status}
use layer_backend.Joins.{
  JoinedShop, JoinedStock, JoinedResult, JoinedProduct, all_some, inconsistent, join_shop,
  join_stock, results_of, join_product,
}

-- What `findVariantWithStock` returns.
pub record VariantWithStock : Type 0 where
  pub id : ℕ
  pub sku : String
  pub variant_code : String
  pub color : Option String
  pub size : Option String
  pub product : JoinedProduct
  pub stocks : List JoinedStock
  pub ecom_stocks : List JoinedResult

-- What `findKnownVariants` returns of a variant.
pub record KnownVariant : Type 0 where
  pub sku : String
  pub variant_code : String
  pub color : Option String
  pub size : Option String
  pub name : String

abbrev pub EventRow : Type 0
EventRow = (String × (ℕ × ℕ)) × BcEvent

-- `orderBy: { receivedAt: 'desc' }`, and `createdAt` of the outbox.
abbrev pub newer_event : EventRow → EventRow → Bool
newer_event (k, a) (l, b) = leb b.received_at a.received_at

abbrev pub newer_row : ℕ × EcomStockOutbox → ℕ × EcomStockOutbox → Bool
newer_row (k, a) (l, b) = leb b.created_at a.created_at

module _ (p : Platform) where
  -- `{ key: { startsWith: sku } }`: a missing key never matches.
  abbrev pub has_key : String → EventRow → Bool
  has_key sku (k, event) = elim event.key [ none ↦ false | some key ↦ p.starts_with key sku ]

  -- `orderBy: { shopCode: 'asc' }`.
  abbrev pub earlier_shop : (ℕ × String) × ShopStock → (ℕ × String) × ShopStock → Bool
  earlier_shop ((v, a), x) ((w, b), y) = p.text_before a b

  -- `orderBy: [{ sku: 'asc' }, { variantCode: 'asc' }]`.
  abbrev pub earlier_variant :
      (String × String) × ProductVariant → (String × String) × ProductVariant → Bool
  earlier_variant ((a, c), x) ((b, d), y) =
      if str_eq a b then p.text_before c d else p.text_before a b

  -- The stocks of a variant with their shops, by the codes of the shops.
  unfoldable pub stocks_of : ℕ → Db p → Option (List JoinedStock)
  stocks_of variant_id db = all_some (
      map (join_stock p db)
        (p.shop_stock.find_ordered (λ r. r.0.0 == variant_id) earlier_shop none db.shop_stocks))

  abbrev pub assemble :
      String
      → String
      → ProductVariant
      → Option JoinedProduct
      → Option (List JoinedStock)
      → Option (List JoinedResult)
      → Option VariantWithStock
  assemble sku variant_code variant (some product) (some stocks) (some results) = some (record {
    id = variant.id;
    sku = sku;
    variant_code = variant_code;
    color = variant.color;
    size = variant.size;
    product = product;
    stocks = stocks;
    ecom_stocks = results;
  })
  assemble sku variant_code variant _ _ _ = none

  -- A variant with all that is joined to it.
  unfoldable pub join_variant : String → String → ProductVariant → Db p → Option VariantWithStock
  join_variant sku variant_code variant db =
      assemble sku variant_code variant (join_product p db sku) (stocks_of variant.id db)
        (results_of p db variant.id)

  -- `findVariantWithStock`: `none` is `null`.
  unfoldable pub find_variant_with_stock : String → String → M p (Option VariantWithStock)
  find_variant_with_stock sku variant_code = do
    found ← query p λ db. elim (p.product_variant.find_unique (sku, variant_code) db.variants) [
      | none ↦ some none
      | some variant ↦ elim (join_variant sku variant_code variant db) [
        | none ↦ none
        | some joined ↦ some (some joined)
      ]
    ]
    or_throw inconsistent found

  -- `findEventsForSku`.
  unfoldable pub find_events_for_sku : String → ℕ → M p (List EventRow)
  find_events_for_sku sku n =
      query p λ db. p.bc_event.find_ordered (has_key sku) newer_event (some n) db.events

  -- `findRecentEvents`.
  unfoldable pub find_recent_events : ℕ → M p (List EventRow)
  find_recent_events n =
      query p λ db. p.bc_event.find_ordered (λ r. true) newer_event (some n) db.events

  -- `findOutboxForSku`.
  unfoldable pub find_outbox_for_sku : String → ℕ → M p (List (ℕ × EcomStockOutbox))
  find_outbox_for_sku sku n =
      query p λ db. p.outbox.find_ordered (λ r. str_eq r.1.sku sku) newer_row (some n) db.outbox

  -- `findRecentOutbox`.
  unfoldable pub find_recent_outbox : ℕ → M p (List (ℕ × EcomStockOutbox))
  find_recent_outbox n =
      query p λ db. p.outbox.find_ordered (λ r. true) newer_row (some n) db.outbox

  -- `findTasksForVariant`: those that are not DONE.
  unfoldable pub find_tasks_for_variant : ℕ → M p (List ((ℕ × ℕ) × StockRecalculationTask))
  find_tasks_for_variant variant_id = query p λ db.
      p.task.find_many
        (λ r. r.0.0 == variant_id && not (has_status r.1.status RecalculationTaskStatus.done))
        (λ r. 0) none db.tasks

  -- A variant with the name of its product.
  abbrev pub join_known : Db p → (String × String) × ProductVariant → Option KnownVariant
  join_known db ((sku, variant_code), variant) = elim (p.product.find_unique sku db.products) [
    | none ↦ none
    | some product ↦ some (record {
      sku = sku;
      variant_code = variant_code;
      color = variant.color;
      size = variant.size;
      name = product.name;
    })
  ]

  -- `findKnownVariants`.
  unfoldable pub find_known_variants : ℕ → M p (List KnownVariant)
  find_known_variants n = do
    found ← query p λ db. all_some (
        map (join_known db)
          (p.product_variant.find_ordered (λ r. true) earlier_variant (some n) db.variants))
    or_throw inconsistent found

  -- `findShops`.
  unfoldable pub find_shops : M p (List JoinedShop)
  find_shops = do
    found ← query p λ db. all_some (
        map (λ r. join_shop p db r.0 r.1)
          (p.shop.find_ordered (λ r. true) (λ a b. p.text_before a.0 b.0) none db.shops))
    or_throw inconsistent found
