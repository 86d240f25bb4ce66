-- ===== src/BcEvents/Dto.antt =====
-- The messages of Business Central once validated: src/modules/bc-events/dto.

use layer_backend.Base.{String, Option, List, Given}
use layer_backend.Base.Int.{ℤ}

pub record BcSeason : Type 0 where
  pub name : String
  pub starting_date : Given String
  pub ending_date : Given String

pub record BcProductHierarchy : Type 0 where
  pub division : Given String
  pub category : Given String
  pub retail_product_code : Given String

pub record BcProductVariant : Type 0 where
  pub variant_code : String
  pub barcode_no : Given String
  pub color : Given String
  pub size : Given String

-- `BcProductEventDto`; a price is its decimal text. A season or a hierarchy that is `null` is read
-- like one that is left out.
pub record BcProductEvent : Type 0 where
  pub sku : String
  pub name : String
  pub unit_measure : Given String
  pub brand : Given String
  pub season : Option BcSeason
  pub product_hierarchy : Option BcProductHierarchy
  pub price : Given String
  pub custom_category_code : Given String
  pub custom_category_code_description : Given String
  pub variants : List BcProductVariant

-- A number as the message gives it: `undefined`, `null`, or the number.
pub data Reported : Type 0 where
  undefined null : Reported
  value : ℤ → Reported

pub record BcStockWarehouse : Type 0 where
  pub warehouse_code : String
  pub quantity : Reported
  pub quantity_delta : Reported

pub record BcStockVariant : Type 0 where
  pub variant_code : String
  pub barcode_no : Option String
  pub price : Option String
  pub quantity : Reported
  pub quantity_delta : Reported
  pub warehouses : Option (List BcStockWarehouse)

-- `BcStockEventDto`.
pub record BcStockEvent : Type 0 where
  pub sku : String
  pub warehouse_code : Option String
  pub variants : List BcStockVariant
