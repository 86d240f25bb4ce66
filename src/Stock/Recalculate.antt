-- ===== src/Stock/Recalculate.antt =====
-- stock.recalculate.service.ts: the calculation for one variant and region pair.
use layer_backend.Base.{Bool, true, false, not, Option, none, some, ◌<>◌}
use layer_backend.Base.Int.{ℤ, pos, leb_ℤ}
use layer_backend.Shared.Errors.{Exception}
use layer_backend.Exec.{Result, ok, err, settled, pure, throw, rethrow, when, ◌>>=◌, ◌>>◌}
use layer_backend.Schema.{EcomStock}
use layer_backend.Platform.{Platform}
use layer_backend.World.{M, transaction}
use layer_backend.Stock.Types.{
  StockTarget, StockCalculationResult, StockRecalculationResult, max_attempts,
}
use layer_backend.Stock.Calculate.{calculate}
use layer_backend.Stock.Repositories.Shops.{find_safety_buffer}
use layer_backend.Stock.Repositories.ShopStocks.{sum_for_region}
use layer_backend.Stock.Repositories.Tasks.{record_unavailable, mark_done}
use layer_backend.EcomApi.{get_reserved_quantity}
use layer_backend.Ecom.Service.{
  describe_target, get_current, save_calculated, enqueue_publication, publish_soon,
}

-- The reservations term, and whether it was carried over.
pub record Reservations : Type 0 where
  pub reserved : ℤ
  pub stale : Bool

-- `shouldPublish`.
unfoldable pub should_publish : ℤ → Bool → Option EcomStock → Bool
should_publish quantity false current = true
should_publish quantity true none = false
should_publish quantity true (some current) = elim current.published_quantity [
  | none ↦ false
  | some published ↦ leb_ℤ quantity published
]

-- `current?.reserved ?? 0`.
abbrev pub last_reserved : Option EcomStock → ℤ
last_reserved none = pos 0
last_reserved (some current) = current.reserved

module _ (p : Platform) where
  -- The `catch` of `readReservations`.
  unfoldable pub carry_over : StockTarget → Option EcomStock → Exception → M p Reservations
  carry_over target current (Exception.ecom_unavailable message attempts) = do
    record_unavailable p target message max_attempts
    pure (record { reserved = last_reserved current; stale = true })
  carry_over target current e = throw e

  unfoldable pub take_reserved : StockTarget → Option EcomStock → Result ℤ → M p Reservations
  take_reserved target current (ok reserved) = pure (record { reserved = reserved; stale = false })
  take_reserved target current (err e) = carry_over target current e

  -- `readReservations`.
  unfoldable pub read_reservations : StockTarget → Option EcomStock → M p Reservations
  read_reservations target current =
      settled (get_reserved_quantity p target) (take_reserved target current)

  -- The transaction of `calculateAndStore`.
  unfoldable pub store : StockTarget → StockCalculationResult → Bool → Bool → M p (Unit {0})
  store target result stale publish = do
    save_calculated p target result stale publish
    when publish (enqueue_publication p target result.quantity)
    when (not stale) (mark_done p target)

  -- `calculateAndStore` once its inputs are read.
  unfoldable pub finish :
      StockTarget → StockCalculationResult → Bool → Bool → M p StockRecalculationResult
  finish target result stale publish = do
    transaction p (store target result stale publish)
    when publish (publish_soon p)
    pure (record {
      value = result;
      region_code = target.region_code;
      reservations_stale = stale;
      published = publish;
    })

  -- `calculateAndStore`.
  unfoldable pub calculate_and_store : StockTarget → M p StockRecalculationResult
  calculate_and_store target = do
    shops_total ← sum_for_region p target.variant_id target.region_id
    safety_buffer ← find_safety_buffer p target.region_id
    current ← get_current p target.variant_id target.region_id
    reservations ← read_reservations target current
    let result = calculate (record {
      shops_total = shops_total;
      safety_buffer = safety_buffer;
      reserved = reservations.reserved;
    })
    finish target result reservations.stale
        (should_publish result.quantity reservations.stale current)

  -- `run`.
  unfoldable pub run : StockTarget → M p StockRecalculationResult
  run target =
      rethrow ("[StockRecalculateService]Recalculating " <> describe_target target <> " was failed")
        (calculate_and_store target)
