-- ===== src/Stock/Read.antt =====
-- The read model of a SKU: stock.read.service.ts, `findWithStockBySku` of product.repository.ts, and
-- stock.response.dto.ts.

pub mod Shown
pub mod Answers
use layer_backend.Base.{
  ℕ, String, Bool, true, false, Option, none, some, List, map, ◌<>◌, ◌==◌, str_eq, if◌then◌else◌,
}
use layer_backend.Base.Int.{ℤ}
use layer_backend.Shared.Errors.{Exception, handle_exception_code}
use layer_backend.Exec.{Result, ok, err, pure, throw, lift, catch, ◌>>=◌}
use layer_backend.Schema.{Season, ProductVariant, ShopStock, EcomStock}
use layer_backend.Platform.{Platform}
use layer_backend.World.{Db, M, query}
use layer_backend.Stock.Repositories.Shops.{not_found}
use layer_backend.Joins.{
  JoinedShop, JoinedStock, JoinedResult, JoinedProduct, all_some, inconsistent, join_stock,
  results_of, join_product,
}

-- `ShopStockResponseDto`.
pub record ShopStockResponse : Type 0 where
  pub shop_code : String
  pub shop_name : Option String
  pub included_in_ecom : Bool
  pub quantity : ℤ
  pub reported_at : ℕ

-- `EcomStockResponseDto`.
pub record EcomStockResponse : Type 0 where
  pub region_code : String
  pub region_name : String
  pub quantity : ℤ
  pub shops_total : ℤ
  pub safety_buffer : ℤ
  pub reserved : ℤ
  pub reservations_stale : Bool
  pub published_quantity : Option ℤ
  pub calculated_at : ℕ
  pub published_at : Option ℕ

-- `VariantStockResponseDto`.
pub record VariantStockResponse : Type 0 where
  pub variant_code : String
  pub barcode_no : Option String
  pub color : Option String
  pub size : Option String
  pub price : Option String
  pub shops : List ShopStockResponse
  pub ecom : List EcomStockResponse

-- `SeasonResponseDto`.
pub record SeasonResponse : Type 0 where
  pub name : String
  pub starts_at : Option ℕ
  pub ends_at : Option ℕ

-- `ProductStockResponseDto`.
pub record ProductStockResponse : Type 0 where
  pub sku : String
  pub name : String
  pub brand : Option String
  pub unit_measure : Option String
  pub price : Option String
  pub division : Option String
  pub category : Option String
  pub retail_product_code : Option String
  pub custom_category_code : Option String
  pub custom_category_code_description : Option String
  pub season : Option SeasonResponse
  pub variants : List VariantStockResponse

-- A variant with what `findWithStockBySku` joins to it.
pub record JoinedVariant : Type 0 where
  pub variant_code : String
  pub row : ProductVariant
  pub stocks : List JoinedStock
  pub ecom_stocks : List JoinedResult

-- What `findWithStockBySku` returns.
pub record ProductWithStock : Type 0 where
  pub sku : String
  pub product : JoinedProduct
  pub variants : List JoinedVariant

module _ (p : Platform) (db : Db p) where
  -- The stocks of a variant with their shops, in the order of the table.
  unfoldable pub unordered_stocks : ℕ → Option (List JoinedStock)
  unordered_stocks variant_id = all_some (
      map (join_stock p db)
        (p.shop_stock.find_many (λ r. r.0.0 == variant_id) (λ r. 0) none db.shop_stocks))

  abbrev pub with_stocks :
      String
      → ProductVariant
      → Option (List JoinedStock)
      → Option (List JoinedResult)
      → Option JoinedVariant
  with_stocks variant_code variant (some stocks) (some results) = some (record {
    variant_code = variant_code;
    row = variant;
    stocks = stocks;
    ecom_stocks = results;
  })
  with_stocks variant_code variant _ _ = none

  abbrev pub join_variant : (String × String) × ProductVariant → Option JoinedVariant
  join_variant ((sku, variant_code), variant) =
      with_stocks variant_code variant (unordered_stocks variant.id) (results_of p db variant.id)

  -- The variants of a SKU by their codes.
  unfoldable pub variants_of : String → Option (List JoinedVariant)
  variants_of sku = all_some (
      map join_variant (
        p.product_variant.find_ordered (λ r. str_eq r.0.0 sku) (λ a b. p.text_before a.0.1 b.0.1)
          none db.variants))

  abbrev pub with_variants :
      String → JoinedProduct → Option (List JoinedVariant) → Result ProductWithStock
  with_variants sku product (some variants) =
      ok (record { sku = sku; product = product; variants = variants })
  with_variants sku product none = err inconsistent

  -- The product of a SKU, or Prisma's error.
  unfoldable pub product_with_stock : String → Result ProductWithStock
  product_with_stock sku = elim (join_product p db sku) [
    | none ↦ err not_found
    | some product ↦ with_variants sku product (variants_of sku)
  ]

-- The entries of `read`.
abbrev pub to_shop_response : JoinedStock → ShopStockResponse
to_shop_response stock = record {
  shop_code = stock.shop.code;
  shop_name = stock.shop.name;
  included_in_ecom = stock.shop.included_in_ecom;
  quantity = stock.quantity;
  reported_at = stock.reported_at;
}

abbrev pub to_ecom_response : JoinedResult → EcomStockResponse
to_ecom_response ecom = record {
  region_code = ecom.region_code;
  region_name = ecom.region_name;
  quantity = ecom.stock.quantity;
  shops_total = ecom.stock.shops_total;
  safety_buffer = ecom.stock.safety_buffer;
  reserved = ecom.stock.reserved;
  reservations_stale = ecom.stock.reservations_stale;
  published_quantity = ecom.stock.published_quantity;
  calculated_at = ecom.stock.calculated_at;
  published_at = ecom.stock.published_at;
}

-- The price is that of the product.
abbrev pub to_variant_response : Option String → JoinedVariant → VariantStockResponse
to_variant_response price variant = record {
  variant_code = variant.variant_code;
  barcode_no = variant.row.barcode_no;
  color = variant.row.color;
  size = variant.row.size;
  price = price;
  shops = map to_shop_response variant.stocks;
  ecom = map to_ecom_response variant.ecom_stocks;
}

abbrev pub to_season_response : Option (String × Season) → Option SeasonResponse
to_season_response none = none
to_season_response (some (name, season)) =
    some (record { name = name; starts_at = season.starts_at; ends_at = season.ends_at })

-- What `read` returns.
abbrev pub to_product_response : ProductWithStock → ProductStockResponse
to_product_response found =
    let row = found.product.row in
    record {
      sku = found.sku;
      name = row.name;
      brand = row.brand;
      unit_measure = row.unit_measure;
      price = row.price;
      division = row.division;
      category = row.category;
      retail_product_code = row.retail_product_code;
      custom_category_code = row.custom_category_code;
      custom_category_code_description = row.custom_category_code_description;
      season = to_season_response found.product.season;
      variants = map (to_variant_response row.price) found.variants;
    }

-- `isRecordNotFound`.
abbrev pub is_record_not_found : Exception → Bool
is_record_not_found (Exception.prisma code message) = str_eq code "P2025"
is_record_not_found _ = false

-- `NotFoundException`, with `STOCK_PRODUCT_NOT_FOUND`.
abbrev pub product_not_found : String → Exception
product_not_found sku =
    Exception.http 404 (some 2001)
      ("Business Central has not sent anything about " <> sku <> " yet")

-- The `catch` of `getBySku`.
unfoldable pub to_read_error : String → Exception → Exception
to_read_error sku e =
    if is_record_not_found e
    then product_not_found sku
    else handle_exception_code e ("[StockReadService]Reading stock for " <> sku <> " was failed")

module _ (p : Platform) where
  -- `ProductRepository.findWithStockBySku`.
  unfoldable pub find_with_stock_by_sku : String → M p ProductWithStock
  find_with_stock_by_sku sku = query p (λ db. product_with_stock p db sku) >>= lift

  -- `read`.
  unfoldable pub read : String → M p ProductStockResponse
  read sku = find_with_stock_by_sku sku >>= λ found. pure (to_product_response found)

  -- `StockReadService.getBySku`, to which `StockService.getBySku` forwards.
  unfoldable pub get_by_sku : String → M p ProductStockResponse
  get_by_sku sku = catch (read sku) λ e. throw (to_read_error sku e)
