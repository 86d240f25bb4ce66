-- ===== src/Shared/Kafka.antt =====
-- The producer: `publish` of src/shared/kafka/kafka-producer.service.ts.
use layer_backend.Base.{String, suc, none, some, List, [], ◌∷◌, ◌++◌, ◌<>◌, length}
use layer_backend.Shared.Errors.{handle_exception_code}
use layer_backend.Exec.{ok, err}
use layer_backend.Platform.{Platform, OutgoingMessage}
use layer_backend.World.{M}

module _ (p : Platform) where
  -- Either all messages are handed over or none is, and then the error is the service's own.
  unfoldable pub publish : String → List OutgoingMessage → M p (Unit {0})
  publish topic [] w = (ok tt, w)
  publish topic (m ∷ ms) w = elim (p.send w.tick topic (m ∷ ms)) [
    | none ↦ (ok tt, record w { tick = suc w.tick; sent = w.sent ++ m ∷ ms })
    | some e ↦ (
      err (
          handle_exception_code e (
            "[KafkaProducerService]Sending "
            <> p.print (length (m ∷ ms))
            <> " message(s) to "
            <> topic
            <> " was failed")),
      record w { tick = suc w.tick },
    )
  ]
