-- ===== src/System/Flights.antt =====
-- Runs that interleave: stock.recalculate.service.ts reads its inputs and decides outside its
-- transaction, so between the reads of a run and its transaction anything else may happen. A run is
-- split there: what it has decided is in flight until its transaction lands.
pub mod Decisions
pub mod Keeps
pub mod Holds
pub mod Safe
use layer_backend.Base.{ℕ, String, Bool, true, false, List, [], ◌∷◌, ◌++◌, ◌≡◌, refl, ◌<>◌}
use layer_backend.Shared.Json.{Json}
use layer_backend.Shared.Errors.{Exception}
use layer_backend.Exec.{Result, ok, err, pure, rethrow, ◌>>=◌}
use layer_backend.Schema.{EcomStockOutbox, RecalculationReason, BcEventType}
use layer_backend.Platform.{Platform}
use layer_backend.World.{World, M}
use layer_backend.Stock.Types.{StockTarget, StockCalculationResult, StockRecalculationResult}
use layer_backend.Stock.Calculate.{calculate}
use layer_backend.Stock.Repositories.Shops.{find_safety_buffer}
use layer_backend.Stock.Repositories.ShopStocks.{sum_for_region}
use layer_backend.Stock.Repositories.Tasks.{enqueue, record_unavailable}
use layer_backend.Stock.Recalculate.{
  should_publish, read_reservations, finish, calculate_and_store, run,
}
use layer_backend.Ecom.Service.{describe_target, get_current}
use layer_backend.Ecom.Publisher.{settle, publish_pending}
use layer_backend.BcEvents.Dto.{BcStockEvent, BcProductEvent}
use layer_backend.BcEvents.Inbox.{KafkaMessageMeta, record_event, mark_failed}
use layer_backend.BcEvents.Ingest.{apply_message, apply_product, apply_stock_event}

-- What a run knows before its transaction.
pub record Flight : Type 0 where
  pub target : StockTarget
  pub value : StockCalculationResult
  pub stale : Bool
  pub publish : Bool

module _ (p : Platform) where
  -- The reads of `calculateAndStore`, the calculation, and the decision.
  unfoldable pub decide : StockTarget → M p Flight
  decide target = do
    shops_total ← sum_for_region p target.variant_id target.region_id
    safety_buffer ← find_safety_buffer p target.region_id
    current ← get_current p target.variant_id target.region_id
    reservations ← read_reservations p target current
    let result = calculate (record {
      shops_total = shops_total;
      safety_buffer = safety_buffer;
      reserved = reservations.reserved;
    })
    pure (record {
      target = target;
      value = result;
      stale = reservations.stale;
      publish = should_publish result.quantity reservations.stale current;
    })

  abbrev failing : StockTarget → String
  failing target =
      "[StockRecalculateService]Recalculating " <> describe_target target <> " was failed"

  -- The first part of `run`, up to the transaction.
  unfoldable pub take_off : StockTarget → M p Flight
  take_off target = rethrow (failing target) (decide target)

  -- Its second part: the transaction, and what follows it.
  unfoldable pub land : Flight → M p StockRecalculationResult
  land f = rethrow (failing f.target) (finish p f.target f.value f.stale f.publish)

  -- The parts of the service that start no calculation, each run to its end: the inbox, the
  -- transaction of a message, the tasks, and the outbox. A drain may also be told apart at its
  -- call of Kafka, after which it settles rows that it has read before.
  pub data Quiet (w w' : World p) : Type 0 where
    received :
        (type : BcEventType) (payload : Json) (meta : KafkaMessageMeta)
        → w' ≡ (record_event p type payload meta w).1
        → Quiet w w'
    catalogue :
        (meta : KafkaMessageMeta) (dto : BcProductEvent)
        → w' ≡ (apply_message p meta (apply_product p dto) w).1
        → Quiet w w'
    stock :
        (meta : KafkaMessageMeta) (dto : BcStockEvent)
        → w' ≡ (apply_message p meta (apply_stock_event p dto) w).1
        → Quiet w w'
    parked :
        (meta : KafkaMessageMeta) (error : String)
        → w' ≡ (mark_failed p meta error w).1
        → Quiet w w'
    queued :
        (target : StockTarget) (reason : RecalculationReason)
        → w' ≡ (enqueue p target reason w).1
        → Quiet w w'
    blocked :
        (target : StockTarget) (error : String) (max_attempts : ℕ)
        → w' ≡ (record_unavailable p target error max_attempts w).1
        → Quiet w w'
    drained : w' ≡ (publish_pending p w).1 → Quiet w w'
    settled :
        (rows : List (ℕ × EcomStockOutbox)) (r : Result (Unit {0}))
        → w' ≡ (settle p rows r w).1
        → Quiet w w'

  -- The state with the runs that are in flight, and every run that has taken off so far: the last is
  -- no state of the program, and only serves to speak of the past.
  pub record Sky : Type 0 where
    pub world : World p
    pub flights : List Flight
    pub past : List Flight

  -- One turn of the event loop. A restart drops the runs that are in flight.
  pub data Turn (s s' : Sky) : Type 0 where
    takes_off :
        (t : StockTarget) (f : Flight)
        → take_off t s.world ≡ (ok f, s'.world)
        → s'.flights ≡ f ∷ s.flights
        → s'.past ≡ f ∷ s.past
        → Turn s s'
    aborts :
        (t : StockTarget) (e : Exception)
        → take_off t s.world ≡ (err e, s'.world)
        → s'.flights ≡ s.flights
        → s'.past ≡ s.past
        → Turn s s'
    lands :
        (before after : List Flight) (f : Flight)
        → s.flights ≡ before ++ f ∷ after
        → s'.world ≡ (land f s.world).1
        → s'.flights ≡ before ++ after
        → s'.past ≡ s.past
        → Turn s s'
    elsewhere : Quiet s.world s'.world → s'.flights ≡ s.flights → s'.past ≡ s.past → Turn s s'
    restarts :
        s'.world ≡ record s.world { running = false; draining = false }
        → s'.flights ≡ []
        → s'.past ≡ s.past
        → Turn s s'

  pub data Turns (s : Sky) : Sky → Type 0 where
    none_yet : Turns s s
    one_more : {t u : Sky} → Turns s t → Turn t u → Turns s u
