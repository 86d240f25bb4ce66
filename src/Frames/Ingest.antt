-- ===== src/Frames/Ingest.antt =====
-- The ingest of a message keeps what the message's own part secures.
use layer_backend.Base.{String, List}
use layer_backend.Exec.{Result, ok, err}
use layer_backend.Schema.{BcEventType}
use layer_backend.Shared.Json.{Json}
use layer_backend.Platform.{Platform, Validated, valid, invalid}
use layer_backend.World.{Db, M}
use layer_backend.World.Keeps.{
  Keeps-bind, Keeps-rethrow, Keeps-pure, Keeps, Secures, Keeps-transaction, keeps_rules,
  secures_rules,
}
use layer_backend.Frames.Writes.{IgnoresEvents}
use layer_backend.Frames.Tables.{mark_processed-Keeps, mark_failed-Keeps, record_event-Keeps}
use layer_backend.Frames.Messages.{try_recalculate-Keeps}
use layer_backend.Stock.Types.{StockTarget}
use layer_backend.Stock.Recalculate.{run}
use layer_backend.BcEvents.Inbox.{KafkaMessageMeta, record_event, mark_processed, mark_failed}
use layer_backend.BcEvents.Dto.{BcStockEvent, BcProductEvent}
use layer_backend.BcEvents.Controller.{KafkaContext, to_message_meta, handle_stock, handle_product}
use layer_backend.BcEvents.Ingest.{
  apply_stock_event, apply_product, ingest_stock, ingest_product, apply_message, conclude,
  ingest_new, ingest,
}

-- What an ingest does to the inbox keeps a predicate.
module _ (p : Platform) (P : Db p → Type 0) where
  pub record KeepsInbox : Type 0 where
    pub recorded :
        (type : BcEventType) (payload : Json) (meta : KafkaMessageMeta)
        → Keeps p P (record_event p type payload meta)
    pub processed : (meta : KafkaMessageMeta) → Keeps p P (mark_processed p meta)
    pub failed : (meta : KafkaMessageMeta) (error : String) → Keeps p P (mark_failed p meta error)

module _ (p : Platform) {P : Db p → Type 0} where
  pub ignoring : IgnoresEvents p P → KeepsInbox p P
  ignoring events = record {
    recorded = record_event-Keeps p events;
    processed = mark_processed-Keeps p events;
    failed = mark_failed-Keeps p events;
  }

module _ (p : Platform) {P : Db p → Type 0} (inbox : KeepsInbox p P) where
  pub apply_message-Keeps :
      (meta : KafkaMessageMeta) (apply : M p (List StockTarget))
      → Secures p P apply
      → Keeps p P (apply_message p meta apply)
  unfolding apply_message
  apply_message-Keeps meta apply s =
      search (Keeps-transaction, secures_rules, keeps_rules, inbox.processed) depth 8

  module _ (runs : (t : StockTarget) → Keeps p P (run p t)) where
    conclude-Keeps :
        (meta : KafkaMessageMeta) (r : Result (List StockTarget)) → Keeps p P (conclude p meta r)
    unfolding conclude
    conclude-Keeps meta (ok targets) = search (keeps_rules, try_recalculate-Keeps)
    conclude-Keeps meta (err e) = search (keeps_rules, inbox.failed)

    ingest_new-Keeps :
        {T : Type 0} (meta : KafkaMessageMeta) (apply : T → M p (List StockTarget))
        (v : Validated T)
        → ((dto : T) → Secures p P (apply dto))
        → Keeps p P (ingest_new p meta apply v)
    unfolding ingest_new
    ingest_new-Keeps meta apply (valid dto) s =
        search (keeps_rules, apply_message-Keeps, conclude-Keeps)
    ingest_new-Keeps meta apply (invalid details) s = search (keeps_rules, inbox.failed)

    pub ingest-Keeps :
        {T : Type 0} (type : BcEventType) (decode : Json → Validated T) (payload : Json)
        (meta : KafkaMessageMeta) (apply : T → M p (List StockTarget))
        → ((dto : T) → Secures p P (apply dto))
        → Keeps p P (ingest p type decode payload meta apply)
    unfolding ingest
    ingest-Keeps type decode payload meta apply s =
        search (keeps_rules, inbox.recorded, ingest_new-Keeps) depth 8

    pub handle_stock-Keeps :
        ((dto : BcStockEvent) → Secures p P (apply_stock_event p dto))
        → (payload : Json) (context : KafkaContext) → Keeps p P (handle_stock p payload context)
    unfolding handle_stock ingest_stock
    handle_stock-Keeps s payload context =
        Keeps-bind p _ _
          (Keeps-rethrow p _ _ (ingest-Keeps _ p.stock_dto payload (to_message_meta context) _ s))
          (λ outcome. Keeps-pure p tt)

    pub handle_product-Keeps :
        ((dto : BcProductEvent) → Secures p P (apply_product p dto))
        → (payload : Json) (context : KafkaContext) → Keeps p P (handle_product p payload context)
    unfolding handle_product ingest_product
    handle_product-Keeps s payload context =
        Keeps-bind p _ _
          (Keeps-rethrow p _ _ (ingest-Keeps _ p.product_dto payload (to_message_meta context) _ s))
          (λ outcome. Keeps-pure p tt)
