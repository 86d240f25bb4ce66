-- ===== src/System/Redelivery.antt =====
-- A message that was seen, however the service is driven afterwards.
use layer_backend.Base.{
  String, Bool, true, false, some, List, ◌≡◌, refl, inl, inr, arith, is_some, if◌then◌else◌,
  Option-cases,
}
use layer_backend.Shared.Json.{Json}
use layer_backend.Exec.{Result, ok, err, pure, ◌>>=◌}
use layer_backend.Schema.{BcEvent, BcEventType}
use layer_backend.Platform.{Platform, Validated, event_key}
use layer_backend.Platform.Laws.{
  find_unique-update_many, create_new_seen, create_new_fresh, find_unique-create_kept,
}
use layer_backend.World.{World, Db, M, call}
use layer_backend.World.Keeps.{Keeps, Keeps-returning, keeps_rules}
use layer_backend.Frames.Runs.{run-Keeps}
use layer_backend.Frames.Workers.{drained-Keeps}
use layer_backend.Frames.Ingest.{KeepsInbox}
use layer_backend.Stock.Types.{StockTarget}
use layer_backend.BcEvents.Inbox.{
  KafkaMessageMeta, identity, new_event, record_event, update_event, mark_processed, mark_failed,
}
use layer_backend.BcEvents.Ingest.{IngestOutcome, ingest, ingest_new}
use layer_backend.BcEvents.Outcomes.{event_row, Records, record_event-Records}
use layer_backend.System.Steps.{Reach}
use layer_backend.System.Keeps.{stock_event-Secures, Reach-Keeps}

module _ (p : Platform) (meta : KafkaMessageMeta) where
  -- The message is in the inbox.
  abbrev pub IsSeen : Db p → Type 0
  IsSeen db = is_some (event_row p db meta) ≡ true

  record_event-IsSeen :
      (type : BcEventType) (payload : Json) (other : KafkaMessageMeta)
      → Keeps p IsSeen (record_event p type payload other)
  unfolding record_event call
  record_event-IsSeen type payload other = record {
    at = λ w h.
        let event = new_event type payload other (p.now w.tick) in
        elim (Option-cases (event_row p w.db meta)) [
          | inl missing ↦ ground (arith, missing)
          | inr (old, seen) ↦ elim (Option-cases (event_row p w.db other)) [
            | inl fresh ↦ ground (
              arith,
              create_new_fresh p.bc_event (identity other) event w.db.events fresh,
              find_unique-create_kept p.bc_event (identity meta) (identity other) event old
                  w.db.events seen,
            )
            | inr (there, known) ↦
                ground
                  (arith, create_new_seen p.bc_event (identity other) event there w.db.events known)
          ]
        ];
  }

  update_event-IsSeen :
      (other : KafkaMessageMeta) (change : BcEvent → BcEvent)
      → Keeps p IsSeen (update_event p other change)
  unfolding update_event
  update_event-IsSeen other change = search (keeps_rules, Keeps-returning, kept)
    where
      kept :
          (db : Db p)
          → IsSeen db
          → IsSeen (record db {
            events =
                p.bc_event.update_many
                  (λ k event. event_key.same k (identity other))
                  change
                  db.events;
          })
      kept db h = ground (
        arith,
        find_unique-update_many p.bc_event (identity meta)
            (λ k event. event_key.same k (identity other)) change db.events,
      )

  inbox : KeepsInbox p IsSeen
  unfolding mark_processed mark_failed
  inbox = record { recorded = record_event-IsSeen; processed = marked; failed = parked }
    where
      marked : (other : KafkaMessageMeta) → Keeps p IsSeen (mark_processed p other)
      marked other = record { at = λ w h. (update_event-IsSeen other _).at w h }

      parked :
          (other : KafkaMessageMeta) (error : String) → Keeps p IsSeen (mark_failed p other error)
      parked other error = record { at = λ w h. (update_event-IsSeen other _).at w h }

  -- However the service is driven, a message that is in the inbox stays there.
  Reach-IsSeen : (w v : World p) → Reach p w v → IsSeen w.db → IsSeen v.db
  Reach-IsSeen w v r h =
      Reach-Keeps p IsSeen (run-Keeps p (λ db t h. h) (λ db t h. h) (λ db t h. h))
        (drained-Keeps p (λ db t h. h) (λ db t h. h)) inbox
        (stock_event-Secures p (λ db t h. h) (λ db t h. h) (λ db t h. h) (λ db t h. h) (λ db t h. h)
          (λ db t h. h))
        (λ db t h. h) (λ db t h. h) (λ db t h. h) (λ db t h. h) r h

  -- A redelivery changes nothing, and says so unless its call fails.
  abbrev pub Skips : World p → Result IngestOutcome × World p → Type 0
  Skips w (ok outcome, w') = (outcome ≡ IngestOutcome.duplicate) × (w'.db ≡ w.db)
  Skips w (err e, w') = (p.fault w.tick ≡ some e) × (w'.db ≡ w.db)

  ingest-Skips :
      {T : Type 0} (type : BcEventType) (decode : Json → Validated T) (payload : Json)
      (apply : T → M p (List StockTarget)) (w : World p)
      → IsSeen w.db
      → Skips w (ingest p type decode payload meta apply w)
  unfolding ingest
  ingest-Skips type decode payload apply w h =
      go (record_event p type payload meta w) (record_event-Records p type payload meta w)
    where
      go :
          (x : Result Bool × World p)
          → Records p type payload meta w x
          → Skips w (
              ((λ u. x) >>= λ is_new.
              if is_new
              then ingest_new p meta apply (decode payload)
              else pure IngestOutcome.duplicate)
                w)
      go (ok true, u) ((new, row), only) = absurd (ground (arith, new))
      go (ok false, u) ((seen, same), only) = (refl, same)
      go (err e, u) (failed, same) = (failed, same)

  -- Once a message is in the inbox, its redelivery at any later time, after whatever else the service
  -- has done, is skipped: it changes no table, whatever the payload of the copy is.
  pub ingest-Skips_later :
      {T : Type 0} (type : BcEventType) (decode : Json → Validated T) (payload : Json)
      (apply : T → M p (List StockTarget)) (w v : World p)
      → Reach p w v
      → IsSeen w.db
      → Skips v (ingest p type decode payload meta apply v)
  ingest-Skips_later type decode payload apply w v r h =
      ingest-Skips type decode payload apply v (Reach-IsSeen w v r h)
