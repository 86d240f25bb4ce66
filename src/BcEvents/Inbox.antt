-- ===== src/BcEvents/Inbox.antt =====
-- bc-event.repository.ts: the inbox of raw messages, which is the guard against redelivery.
use layer_backend.Base.{ℕ, String, Bool, Option, none, some, ltb}
use layer_backend.Shared.Json.{Json}
use layer_backend.Exec.{ok, pure, or_throw, ◌>>=◌, ◌>>◌}
use layer_backend.Schema.{BcEvent, BcEventType, BcEventStatus}
use layer_backend.Platform.{Platform, event_key}
use layer_backend.World.{M, call, returning, now}
use layer_backend.Stock.Repositories.Shops.{not_found}

-- `KafkaMessageMeta`; the offset is a decimal text there, and a number here.
pub record KafkaMessageMeta : Type 0 where
  pub topic : String
  pub partition : ℕ
  pub offset : ℕ
  pub key : Option String

-- `identity`.
abbrev pub identity : KafkaMessageMeta → String × (ℕ × ℕ)
identity meta = (meta.topic, (meta.partition, meta.offset))

abbrev pub new_event : BcEventType → Json → KafkaMessageMeta → ℕ → BcEvent
new_event type payload meta time = record {
  type = type;
  status = BcEventStatus.pending;
  key = meta.key;
  payload = payload;
  received_at = time;
  processed_at = none;
  error = none;
}

abbrev pub process : ℕ → BcEvent → BcEvent
process time event = record event { status = BcEventStatus.processed; processed_at = some time }

abbrev pub fail : String → ℕ → BcEvent → BcEvent
fail error time event = record event {
  status = BcEventStatus.failed;
  processed_at = some time;
  error = some error;
}

module _ (p : Platform) where
  -- `record`: whether the message is new.
  unfoldable pub record_event : BcEventType → Json → KafkaMessageMeta → M p Bool
  record_event type payload meta = do
    time ← now p
    call p >> λ w.
        let (count, events) =
          p.bc_event.create_new (identity meta) (new_event type payload meta time) w.db.events in
        (ok (ltb 0 count), record w { db = record w.db { events = events } })

  -- Prisma's `update` of the message's row, which rejects if there is none.
  unfoldable pub update_event : KafkaMessageMeta → (BcEvent → BcEvent) → M p (Unit {0})
  update_event meta change = do
    found ←
        returning p
          (λ db. record db {
            events =
                p.bc_event.update_many (λ k event. event_key.same k (identity meta)) change
                  db.events;
          })
          (λ db. p.bc_event.find_unique (identity meta) db.events)
    event ← or_throw not_found found
    pure tt

  -- `markProcessed`.
  unfoldable pub mark_processed : KafkaMessageMeta → M p (Unit {0})
  mark_processed meta = do time ← now p; update_event meta (process time)

  -- `markFailed`.
  unfoldable pub mark_failed : KafkaMessageMeta → String → M p (Unit {0})
  mark_failed meta error = do time ← now p; update_event meta (fail error time)
