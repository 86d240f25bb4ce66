-- ===== src/Stock/Controller.antt =====
-- The manual recalculation: stock.controller.ts, with its response of stock.response.dto.ts.
use layer_backend.Base.{String, Bool, List, map}
use layer_backend.Base.Int.{ℤ}
use layer_backend.Exec.{pure, ◌>>=◌}
use layer_backend.Platform.{Platform}
use layer_backend.World.{M}
use layer_backend.Stock.Types.{StockRecalculationResult}
use layer_backend.Stock.Service.{recalculate_variant}

-- `RecalculationResponseDto`.
pub record RecalculationResponse : Type 0 where
  pub region_code : String
  pub quantity : ℤ
  pub shops_total : ℤ
  pub safety_buffer : ℤ
  pub reserved : ℤ
  pub reservations_stale : Bool
  pub published : Bool

abbrev pub to_response : StockRecalculationResult → RecalculationResponse
to_response result = record {
  region_code = result.region_code;
  quantity = result.value.quantity;
  shops_total = result.value.shops_total;
  safety_buffer = result.value.safety_buffer;
  reserved = result.value.reserved;
  reservations_stale = result.reservations_stale;
  published = result.published;
}

-- `recalculate`.
unfoldable pub recalculate : (p : Platform) → String → String → M p (List RecalculationResponse)
recalculate p sku variant_code =
    recalculate_variant p sku variant_code >>= λ results. pure (map to_response results)
