-- ===== src/Stock/Types.antt =====
-- The domain commands and results of src/modules/stock/types/stock.type.ts, the constants of
-- src/modules/stock/constants/stock.constants.ts, and the enqueue reasons.
use layer_backend.Base.{ℕ, String, Bool, Option, List, Given}
use layer_backend.Base.Int.{ℤ, pos}

pub record ProductVariantDescriptor : Type 0 where
  pub variant_code : String
  pub barcode_no : Given String
  pub color : Given String
  pub size : Given String

pub record SeasonCommand : Type 0 where
  pub name : String
  pub starts_at : Given ℕ
  pub ends_at : Given ℕ

pub record ProductCatalogueCommand : Type 0 where
  pub sku : String
  pub name : String
  pub brand : Given String
  pub unit_measure : Given String
  pub price : Given String
  pub division : Given String
  pub category : Given String
  pub retail_product_code : Given String
  pub custom_category_code : Given String
  pub custom_category_code_description : Given String
  pub season : Option SeasonCommand
  pub variants : List ProductVariantDescriptor

-- One variant in one shop, with an absolute quantity or a signed change.
pub record StockLine : Type 0 where
  pub variant_code : String
  pub shop_code : String
  pub quantity : Option ℤ
  pub quantity_delta : Option ℤ

pub record StockUpdateCommand : Type 0 where
  pub sku : String
  pub lines : List StockLine

-- The variant and region pair that a calculation is for (also `EcomStockTarget` of
-- src/modules/ecom/types/ecom.type.ts).
pub record StockTarget : Type 0 where
  pub variant_id : ℕ
  pub sku : String
  pub variant_code : String
  pub region_id : ℕ
  pub region_code : String

pub record StockCalculationInput : Type 0 where
  pub shops_total : ℤ
  pub safety_buffer : ℤ
  pub reserved : ℤ

-- Also `EcomStockValue` of src/modules/ecom/types/ecom.type.ts.
pub record StockCalculationResult : Type 0 where
  pub shops_total : ℤ
  pub safety_buffer : ℤ
  pub reserved : ℤ
  pub quantity : ℤ

pub record StockRecalculationResult : Type 0 where
  pub value : StockCalculationResult
  pub region_code : String
  pub reservations_stale : Bool
  pub published : Bool

pub record ResolvedShop : Type 0 where
  pub code : String
  pub region_id : ℕ
  pub region_code : String

abbrev pub unassigned_region_code : String
unassigned_region_code = "UNASSIGNED"

abbrev pub unassigned_region_name : String
unassigned_region_name = "Не призначено"

abbrev pub default_safety_buffer : ℤ
default_safety_buffer = pos 0

-- `RECALCULATION.RETRY_BATCH_SIZE` and `RECALCULATION.MAX_ATTEMPTS`.
abbrev pub retry_batch_size : ℕ
retry_batch_size = 50

abbrev pub max_attempts : ℕ
max_attempts = 10
