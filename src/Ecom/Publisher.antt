-- ===== src/Ecom/Publisher.antt =====
-- ecom.outbox-publisher.service.ts: the drain that carries the outbox to Kafka.
use layer_backend.Base.{ℕ, String, or_else, true, false, List, [], ◌∷◌, map, length, if◌then◌else◌}
use layer_backend.Shared.Errors.{message_of}
use layer_backend.Shared.Kafka.{publish}
use layer_backend.Exec.{Result, ok, err, pure, settled, catch, finally, ◌>>=◌, ◌>>◌}
use layer_backend.Schema.{EcomStockOutbox}
use layer_backend.Platform.{Platform, OutgoingMessage}
use layer_backend.World.{M, now}
use layer_backend.Ecom.Repositories.{
  outbox_batch_size, find_pending, mark_sent, mark_published, record_failure,
}
use layer_backend.Base.{◌<>◌}

-- The Kafka message of an outbox row (`EcomStockMessage`).
abbrev pub to_message : ℕ × EcomStockOutbox → OutgoingMessage
to_message (id, row) = record {
  key = row.sku <> ":" <> row.variant_code;
  sku = row.sku;
  variant_code = row.variant_code;
  region_code = row.region_code;
  quantity = row.quantity;
  calculated_at = row.created_at;
}

abbrev pub ids_of : List (ℕ × EcomStockOutbox) → List ℕ
ids_of = map λ r. r.0

abbrev pub pairs_of : List (ℕ × EcomStockOutbox) → List (ℕ × ℕ)
pairs_of = map λ r. (r.1.variant_id, r.1.region_id)

module _ (p : Platform) where
  -- What follows the call of the producer, by its outcome.
  unfoldable pub settle : List (ℕ × EcomStockOutbox) → Result (Unit {0}) → M p ℕ
  settle pending (err e) = record_failure p (ids_of pending) (message_of e) >> pure 0
  settle pending (ok _) = do
    sent_at ← now p
    mark_sent p (ids_of pending) sent_at
    mark_published p (pairs_of pending) sent_at
    pure (length pending)

  -- `KAFKA_TOPICS.ecomStock`.
  abbrev pub ecom_topic : String
  ecom_topic = or_else (p.env "KAFKA_TOPIC_ECOM_STOCK") "ecom.stock.updated"

  -- The batch that `drain` has found.
  unfoldable pub drain_batch : List (ℕ × EcomStockOutbox) → M p ℕ
  drain_batch [] = pure 0
  drain_batch (row ∷ rows) =
      settled (publish p ecom_topic (map to_message (row ∷ rows))) (settle (row ∷ rows))

  -- `drain`.
  unfoldable pub drain : M p ℕ
  drain = find_pending p outbox_batch_size >>= drain_batch

  -- `publishPending`: one drain at a time, and nothing is thrown.
  unfoldable pub publish_pending : M p ℕ
  publish_pending w =
      if w.draining
      then (ok 0, w)
      else finally (catch drain λ e. pure 0) (λ w'. record w' { draining = false })
          (record w { draining = true })
