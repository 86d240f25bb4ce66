-- ===== src/BcEvents/Settling.antt =====
-- How the ingest of one message ends: bc-events.ingest.service.ts.
use layer_backend.Base.{Bool, true, false, none, some, List, ◌≡◌, refl, arith, if◌then◌else◌}
use layer_backend.Shared.Errors.{message_of}
use layer_backend.Shared.Json.{Json}
use layer_backend.Exec.{Result, ok, err, pure, settled, ◌>>=◌, ◌>>◌}
use layer_backend.Schema.{BcEvent, BcEventType, BcEventStatus}
use layer_backend.Platform.{Platform, Validated, valid, invalid}
use layer_backend.World.{World, Db, M, call, transaction}
use layer_backend.Frames.Messages.{try_recalculate-Keeps}
use layer_backend.Frames.Runs.{run-Keeps}
use layer_backend.Stock.Types.{StockTarget}
use layer_backend.Stock.Service.{try_recalculate}
use layer_backend.BcEvents.Inbox.{
  KafkaMessageMeta, new_event, record_event, mark_processed, process,
}
use layer_backend.BcEvents.Ingest.{IngestOutcome, apply_message, conclude, ingest_new, ingest}
use layer_backend.BcEvents.Outcomes.{
  event_row, status_of, OnlyInbox, Records, record_event-Records, update_event-Updates, try_all-ok,
  Settles, parked,
}

module _ (p : Platform) (payload : Json) (meta : KafkaMessageMeta) where
  abbrev IsProcessed : Db p → Type 0
  IsProcessed db = status_of p (event_row p db meta) ≡ some BcEventStatus.processed

  abbrev Marks : {A : Type 0} → Result A × World p → Type 0
  Marks (ok a, w') = IsProcessed w'.db
  Marks (err e, w') = Unit

  mark_processed-Marks : (w : World p) → Marks (mark_processed p meta w)
  unfolding mark_processed
  mark_processed-Marks w = ground (arith, update_event-Updates p meta (process (p.now w.tick)) w)

  -- A committed transaction has marked the row; one that failed has changed nothing.
  abbrev Applies : World p → Result (List StockTarget) × World p → Type 0
  Applies w (ok targets, w') = IsProcessed w'.db
  Applies w (err e, w') = w'.db ≡ w.db

  apply_message-Applies :
      (apply : M p (List StockTarget)) (w : World p) → Applies w (apply_message p meta apply w)
  unfolding apply_message transaction call
  apply_message-Applies apply w = ground (arith, mark_processed-Marks (apply w).1)

  -- The calculations after a message leave the inbox alone, and do not reject.
  concluded :
      (w v : World p) (targets : List StockTarget)
      → event_row p w.db meta ≡ none
      → IsProcessed v.db
      → Settles p payload meta w (conclude p meta (ok targets) v)
  unfolding conclude try_recalculate
  concluded w v targets new done = go (try_recalculate p targets v) (try_all-ok p targets v) kept
    where
      go :
          (x : Result (Unit {0}) × World p)
          → x.0 ≡ ok tt
          → IsProcessed x.1.db
          → Settles p payload meta w (((λ u. x) >> pure IngestOutcome.processed) v)
      go (ok a, u) h k = (new, k)
      go (err e, u) h k = cc

      kept : IsProcessed (try_recalculate p targets v).1.db
      kept =
          (try_recalculate-Keeps p {P = IsProcessed}
              (run-Keeps p (λ db t h. h) (λ db t h. h) (λ db t h. h)) targets).at
            v done

  -- A message that is new, from the world in which its row has been created.
  new_message :
      {T : Type 0} (apply : T → M p (List StockTarget)) (v : Validated T) (event : BcEvent)
      (w u : World p)
      → event_row p w.db meta ≡ none
      → event_row p u.db meta ≡ some event
      → event.payload ≡ payload
      → OnlyInbox p w.db u.db
      → Settles p payload meta w (ingest_new p meta apply v u)
  unfolding ingest_new conclude settled
  new_message apply (invalid details) event w u new row same only =
      (parked p payload meta details w u event new row same only).1
  new_message apply (valid dto) event w u new row same only =
      go (apply_message p meta (apply dto) u) (apply_message-Applies (apply dto) u)
    where
      go :
          (x : Result (List StockTarget) × World p)
          → Applies u x
          → Settles p payload meta w (conclude p meta x.0 x.1)
      go (ok targets, v) done = concluded w v targets new done
      go (err e, v) back =
          (parked p payload meta (message_of e) w v event new (rw back row) same (rw back only)).0

  -- A message that is new is processed, and then its row says so, or it is malformed or failed, and
  -- then its row is FAILED, holds the payload, and no other table has changed. A message that is in
  -- the inbox already changes nothing, whatever the status of its row. If the ingest rejects, no
  -- table but the inbox has changed. This holds for every way of applying a message, and whichever
  -- calls of the database fail.
  pub ingest-Settles :
      {T : Type 0} (type : BcEventType) (decode : Json → Validated T)
      (apply : T → M p (List StockTarget)) (w : World p)
      → Settles p payload meta w (ingest p type decode payload meta apply w)
  unfolding ingest
  ingest-Settles type decode apply w =
      go (record_event p type payload meta w) (record_event-Records p type payload meta w)
    where
      go :
          (x : Result Bool × World p)
          → Records p type payload meta w x
          → Settles p payload meta w (
              ((λ u. x) >>= λ is_new.
              if is_new
              then ingest_new p meta apply (decode payload)
              else pure IngestOutcome.duplicate)
                w)
      go (ok true, u) ((new, row), only) =
          new_message apply (decode payload) (new_event type payload meta (p.now w.tick)) w u new
            row refl only
      go (ok false, u) ((seen, same), only) = (seen, same)
      go (err e, u) (h, same) = ground arith
