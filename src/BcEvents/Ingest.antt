-- ===== src/BcEvents/Ingest.antt =====
-- bc-events.ingest.service.ts and the class of bc-events.service.ts: one message, from the inbox to
-- the calculations that it owes.
use layer_backend.Base.{String, List, [], ◌<>◌, if◌then◌else◌}
use layer_backend.Shared.Errors.{message_of}
use layer_backend.Shared.Json.{Json}
use layer_backend.Exec.{Result, ok, err, pure, settled, lift, rethrow, ◌>>=◌, ◌>>◌}
use layer_backend.Schema.{BcEventType}
use layer_backend.Platform.{Platform, Validated, valid, invalid}
use layer_backend.World.{M, transaction}
use layer_backend.Stock.Types.{StockTarget}
use layer_backend.Stock.Service.{apply_catalogue, apply_stock, try_recalculate}
use layer_backend.BcEvents.Dto.{BcProductEvent, BcStockEvent}
use layer_backend.BcEvents.Inbox.{KafkaMessageMeta, record_event, mark_processed, mark_failed}
use layer_backend.BcEvents.Mapping.{to_stock_command, to_catalogue_command}

-- `EIngestOutcome`; `malformed` is its `Invalid`.
pub data IngestOutcome : Type 0 where
  processed duplicate malformed failed : IngestOutcome

module _ (p : Platform) where
  -- The transaction that applies a message and marks it.
  unfoldable pub apply_message : KafkaMessageMeta → M p (List StockTarget) → M p (List StockTarget)
  apply_message meta apply = transaction p do applied ← apply; mark_processed p meta; pure applied

  -- What follows the transaction, by its outcome.
  unfoldable pub conclude : KafkaMessageMeta → Result (List StockTarget) → M p IngestOutcome
  conclude meta (err e) = mark_failed p meta (message_of e) >> pure IngestOutcome.failed
  conclude meta (ok targets) = try_recalculate p targets >> pure IngestOutcome.processed

  -- A message that is new, once validated.
  unfoldable pub ingest_new :
      {T : Type 0}
      → KafkaMessageMeta
      → (T → M p (List StockTarget))
      → Validated T
      → M p IngestOutcome
  ingest_new meta apply (invalid details) =
      mark_failed p meta details >> pure IngestOutcome.malformed
  ingest_new meta apply (valid dto) = settled (apply_message meta (apply dto)) (conclude meta)

  -- `ingest`.
  unfoldable pub ingest :
      {T : Type 0}
      → BcEventType
      → (Json → Validated T)
      → Json
      → KafkaMessageMeta
      → (T → M p (List StockTarget))
      → M p IngestOutcome
  ingest type decode payload meta apply = do
    is_new ← record_event p type payload meta
    if is_new then ingest_new meta apply (decode payload) else pure IngestOutcome.duplicate

  -- The message's own part of `ingestProduct` and of `ingestStock`.
  unfoldable pub apply_product : BcProductEvent → M p (List StockTarget)
  apply_product dto = do apply_catalogue p (to_catalogue_command p dto); pure []

  unfoldable pub apply_stock_event : BcStockEvent → M p (List StockTarget)
  apply_stock_event dto = do command ← lift (to_stock_command dto); apply_stock p command

  abbrev describe_meta : KafkaMessageMeta → String
  describe_meta meta = meta.topic <> "@" <> p.print meta.offset

  -- `ingestProduct`.
  unfoldable pub ingest_product : Json → KafkaMessageMeta → M p IngestOutcome
  ingest_product payload meta =
      rethrow
        ("[BcEventsService]Ingesting the product message from "
          <> describe_meta meta
          <> " was failed")
        (ingest BcEventType.product p.product_dto payload meta apply_product)

  -- `ingestStock`.
  unfoldable pub ingest_stock : Json → KafkaMessageMeta → M p IngestOutcome
  ingest_stock payload meta =
      rethrow
        ("[BcEventsService]Ingesting the stock message from "
          <> describe_meta meta
          <> " was failed")
        (ingest BcEventType.stock p.stock_dto payload meta apply_stock_event)
