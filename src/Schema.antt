-- ===== src/Schema.antt =====
-- The tables of prisma/schema.prisma. A row is kept under its unique key; `Int` columns are
-- integers, uuids and times are numbers, and a decimal is its text.
use layer_backend.Base.{ℕ, String, Option, Bool}
use layer_backend.Base.Int.{ℤ}
use layer_backend.Shared.Json.{Json}

-- `Region`, under its `bcCode`.
pub record Region : Type 0 where
  pub id : ℕ
  pub name : String
  pub safety_buffer : ℤ

-- `Shop`, under its `code`.
pub record Shop : Type 0 where
  pub name : Option String
  pub region_id : ℕ
  pub included_in_ecom : Bool

-- `Season`, under its `name`.
pub record Season : Type 0 where
  pub id : ℕ
  pub starts_at : Option ℕ
  pub ends_at : Option ℕ

-- `Product`, under its `sku`.
pub record Product : Type 0 where
  pub name : String
  pub brand : Option String
  pub unit_measure : Option String
  pub price : Option String
  pub division : Option String
  pub category : Option String
  pub retail_product_code : Option String
  pub custom_category_code : Option String
  pub custom_category_code_description : Option String
  pub season_id : Option ℕ

-- `ProductVariant`, under its `sku` and `variantCode`.
pub record ProductVariant : Type 0 where
  pub id : ℕ
  pub barcode_no : Option String
  pub color : Option String
  pub size : Option String

-- `ShopStock`, under its `variantId` and `shopCode`.
pub record ShopStock : Type 0 where
  pub quantity : ℤ
  pub reported_at : ℕ

-- `EcomStock`, under its `variantId` and `regionId`.
pub record EcomStock : Type 0 where
  pub quantity : ℤ
  pub shops_total : ℤ
  pub safety_buffer : ℤ
  pub reserved : ℤ
  pub reservations_stale : Bool
  pub published_quantity : Option ℤ
  pub calculated_at : ℕ
  pub published_at : Option ℕ

pub data RecalculationTaskStatus : Type 0 where
  pending done abandoned : RecalculationTaskStatus

-- `ERecalculationReason` of modules/stock/types/stock.type.ts, the `reason` column.
pub data RecalculationReason : Type 0 where
  bc_stock manual_request ecom_unavailable : RecalculationReason

-- `StockRecalculationTask`, under its `variantId` and `regionId`.
pub record StockRecalculationTask : Type 0 where
  pub sku : String
  pub variant_code : String
  pub region_code : String
  pub status : RecalculationTaskStatus
  pub reason : RecalculationReason
  pub attempts : ℕ
  pub last_error : Option String
  pub last_tried_at : Option ℕ
  pub updated_at : ℕ

pub data BcEventType : Type 0 where
  product stock : BcEventType

pub data BcEventStatus : Type 0 where
  pending processed failed : BcEventStatus

-- `BcEvent`, under its `topic`, `partition` and `offset`.
pub record BcEvent : Type 0 where
  pub type : BcEventType
  pub status : BcEventStatus
  pub key : Option String
  pub payload : Json
  pub received_at : ℕ
  pub processed_at : Option ℕ
  pub error : Option String

pub data OutboxStatus : Type 0 where
  pending sent failed : OutboxStatus

-- `EcomStockOutbox`, under its `id`.
pub record EcomStockOutbox : Type 0 where
  pub sku : String
  pub variant_code : String
  pub variant_id : ℕ
  pub region_id : ℕ
  pub region_code : String
  pub quantity : ℤ
  pub status : OutboxStatus
  pub attempts : ℕ
  pub last_error : Option String
  pub created_at : ℕ
  pub sent_at : Option ℕ
