-- ===== src/BcEvents/Controller.antt =====
-- The Kafka entry point: bc-events.controller.ts.
use layer_backend.Base.{ℕ, String, Option}
use layer_backend.Shared.Json.{Json}
use layer_backend.Exec.{pure, ◌>>◌}
use layer_backend.Platform.{Platform}
use layer_backend.World.{M}
use layer_backend.BcEvents.Inbox.{KafkaMessageMeta}
use layer_backend.BcEvents.Ingest.{ingest_product, ingest_stock}

-- What the code reads from `KafkaContext`.
pub record KafkaContext : Type 0 where
  pub topic : String
  pub partition : ℕ
  pub offset : ℕ
  pub key : Option String

-- `toMessageMeta`.
unfoldable pub to_message_meta : KafkaContext → KafkaMessageMeta
to_message_meta context = record {
  topic = context.topic;
  partition = context.partition;
  offset = context.offset;
  key = context.key;
}

module _ (p : Platform) where
  -- `handleProduct`.
  unfoldable pub handle_product : Json → KafkaContext → M p (Unit {0})
  handle_product payload context = ingest_product p payload (to_message_meta context) >> pure tt

  -- `handleStock`.
  unfoldable pub handle_stock : Json → KafkaContext → M p (Unit {0})
  handle_stock payload context = ingest_stock p payload (to_message_meta context) >> pure tt
