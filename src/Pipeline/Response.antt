-- ===== src/Pipeline/Response.antt =====
-- pipeline.response.dto.ts.
use layer_backend.Base.{ℕ, String, Bool, Option, List}
use layer_backend.Base.Int.{ℤ}
use layer_backend.Shared.Json.{Json}
use layer_backend.Schema.{
  RecalculationTaskStatus, RecalculationReason, BcEventType, BcEventStatus, OutboxStatus,
}

-- `PipelineShopLineDto`.
pub record PipelineShopLine : Type 0 where
  pub shop_code : String
  pub shop_name : Option String
  pub region_code : String
  pub quantity : ℤ
  pub included_in_ecom : Bool
  pub reported_at : ℕ

-- `PipelineCalculationDto`.
pub record PipelineCalculation : Type 0 where
  pub region_code : String
  pub region_name : String
  pub shops_total : ℤ
  pub safety_buffer : ℤ
  pub reserved : ℤ
  pub quantity : ℤ
  pub published_quantity : Option ℤ
  pub reservations_stale : Bool
  pub withheld : Bool
  pub calculated_at : ℕ
  pub published_at : Option ℕ

-- `PipelineEventDto`.
pub record PipelineEvent : Type 0 where
  pub type : BcEventType
  pub status : BcEventStatus
  pub topic : String
  pub partition : ℕ
  pub offset : String
  pub key : Option String
  pub payload : Json
  pub received_at : ℕ
  pub processed_at : Option ℕ
  pub error : Option String

-- `PipelineOutboxDto`.
pub record PipelineOutbox : Type 0 where
  pub sku : String
  pub variant_code : String
  pub region_code : String
  pub quantity : ℤ
  pub status : OutboxStatus
  pub attempts : ℕ
  pub last_error : Option String
  pub created_at : ℕ
  pub sent_at : Option ℕ

-- `PipelineBlockedDto`.
pub record PipelineBlocked : Type 0 where
  pub region_code : String
  pub status : RecalculationTaskStatus
  pub reason : RecalculationReason
  pub attempts : ℕ
  pub last_error : Option String
  pub last_tried_at : Option ℕ

-- `PipelineTraceDto`.
pub record PipelineTrace : Type 0 where
  pub sku : String
  pub variant_code : String
  pub name : String
  pub descriptor : Option String
  pub unit_measure : Option String
  pub season_name : Option String
  pub shops : List PipelineShopLine
  pub calculations : List PipelineCalculation
  pub events : List PipelineEvent
  pub outbox : List PipelineOutbox
  pub blocked : List PipelineBlocked

-- `PipelineVariantRefDto`.
pub record PipelineVariantRef : Type 0 where
  pub sku : String
  pub variant_code : String
  pub name : String
  pub descriptor : Option String

-- `PipelineShopRefDto`.
pub record PipelineShopRef : Type 0 where
  pub code : String
  pub name : Option String
  pub region_code : String
  pub region_name : String
  pub safety_buffer : ℤ
  pub included_in_ecom : Bool

-- `PipelineStandDto`.
pub record PipelineStand : Type 0 where
  pub shops : List PipelineShopRef
  pub variants : List PipelineVariantRef

-- `PipelineActivityDto`.
pub record PipelineActivity : Type 0 where
  pub events : List PipelineEvent
  pub outbox : List PipelineOutbox
