-- ===== src/Visualizer/Types.antt =====
-- What the visualizer is given by the two services: visualizer/src/api/types.ts. A time in the ISO
-- format stands as its milliseconds (`new Date(iso).getTime()`), and the payload of a message as the
-- record that `summarise` of visualizer/src/components/ActivityLog.tsx casts it to.
use layer_backend.Base.{ℕ, String, Bool, Option, List}
use layer_backend.Base.Int.{ℤ}
use layer_backend.Schema.{BcEventType, BcEventStatus, OutboxStatus}
use layer_backend.BcEvents.Dto.{Reported}

pub record ShopRef : Type 0 where
  pub code : String
  pub name : Option String
  pub region_code : String
  pub region_name : String
  pub safety_buffer : ℤ
  pub included_in_ecom : Bool

pub record VariantRef : Type 0 where
  pub sku : String
  pub variant_code : String
  pub name : String
  pub descriptor : Option String

pub record Stand : Type 0 where
  pub shops : List ShopRef
  pub variants : List VariantRef

pub record ShopLine : Type 0 where
  pub shop_code : String
  pub shop_name : Option String
  pub region_code : String
  pub quantity : ℤ
  pub included_in_ecom : Bool
  pub reported_at : ℕ

pub record Calculation : Type 0 where
  pub region_code : String
  pub region_name : String
  pub shops_total : ℤ
  pub safety_buffer : ℤ
  pub reserved : ℤ
  pub quantity : ℤ
  pub published_quantity : Option ℤ
  pub reservations_stale : Bool
  pub withheld : Bool
  pub calculated_at : ℕ
  pub published_at : Option ℕ

-- A place of a payload: a missing code is `none`, also where it is `null`.
pub record Place : Type 0 where
  pub warehouse_code : Option String
  pub quantity : Reported
  pub quantity_delta : Reported

pub record PayloadVariant : Type 0 where
  pub variant_code : Option String
  pub quantity : Reported
  pub quantity_delta : Reported
  pub warehouses : Option (List Place)

pub record Payload : Type 0 where
  pub sku : Option String
  pub warehouse_code : Option String
  pub variants : Option (List PayloadVariant)

pub record PipelineEvent : Type 0 where
  pub type : BcEventType
  pub status : BcEventStatus
  pub topic : String
  pub partition : ℕ
  pub offset : String
  pub key : Option String
  pub payload : Payload
  pub received_at : ℕ
  pub processed_at : Option ℕ
  pub error : Option String

pub record OutboxRow : Type 0 where
  pub sku : String
  pub variant_code : String
  pub region_code : String
  pub quantity : ℤ
  pub status : OutboxStatus
  pub attempts : ℕ
  pub last_error : Option String
  pub created_at : ℕ
  pub sent_at : Option ℕ

pub data BlockedStatus : Type 0 where
  pending abandoned : BlockedStatus

pub record BlockedTask : Type 0 where
  pub region_code : String
  pub status : BlockedStatus
  pub reason : String
  pub attempts : ℕ
  pub last_error : Option String
  pub last_tried_at : Option ℕ

pub record Trace : Type 0 where
  pub sku : String
  pub variant_code : String
  pub name : String
  pub descriptor : Option String
  pub unit_measure : Option String
  pub season_name : Option String
  pub shops : List ShopLine
  pub calculations : List Calculation
  pub events : List PipelineEvent
  pub outbox : List OutboxRow
  pub blocked : List BlockedTask

pub data ServiceStatus : Type 0 where
  healthy degraded : ServiceStatus

pub record Backlog : Type 0 where
  pub pending_recalculations : ℕ
  pub abandoned_recalculations : ℕ
  pub stale_quantities : ℕ

pub record Health : Type 0 where
  pub status : ServiceStatus
  pub database_up : Bool
  pub reservations : Backlog
  pub uptime_seconds : ℕ

-- The mode of the mock. `other` is any text that the type does not name: the mock also has
-- `coercible`.
pub data EcomMode : Type 0 where
  working down slow garbage : EcomMode
  other : String → EcomMode

pub record EcomState : Type 0 where
  pub reserved : ℤ
  pub mode : EcomMode

pub record CommandSeason : Type 0 where
  pub name : String
  pub starting_date : Option String
  pub ending_date : Option String

pub record CommandHierarchy : Type 0 where
  pub division : Option String
  pub category : Option String
  pub retail_product_code : Option String

pub record CommandVariant : Type 0 where
  pub variant_code : String
  pub barcode_no : Option String
  pub color : Option String
  pub size : Option String

pub record ProductCommand : Type 0 where
  pub sku : String
  pub name : String
  pub unit_measure : Option String
  pub brand : Option String
  pub price : Option ℕ
  pub season : Option CommandSeason
  pub product_hierarchy : Option CommandHierarchy
  pub custom_category_code : Option String
  pub custom_category_code_description : Option String
  pub variants : List CommandVariant

pub record StockCommandVariant : Type 0 where
  pub variant_code : String
  pub barcode_no : Option String
  pub price : Option ℕ
  pub quantity : Option ℤ
  pub quantity_delta : Option ℤ

pub record StockCommand : Type 0 where
  pub sku : String
  pub warehouse_code : String
  pub variants : List StockCommandVariant
