-- ===== src/BcEvents/Outcomes.antt =====
-- What each outcome of an ingest says of the database: bc-events.ingest.service.ts.
use mathlib.Core.Option
use layer_backend.Base.{
  String, Bool, true, Option, none, some, List, [], ◌∷◌, ◌≡◌, refl, inl, inr, Option-cases, is_some,
  arith, if◌then◌else◌,
}
use layer_backend.Shared.Json.{Json}
use layer_backend.Exec.{Result, ok, err, pure, for_all, settled, ◌>>◌}
use layer_backend.Schema.{BcEvent, BcEventType, BcEventStatus}
use layer_backend.Platform.{Platform, event_key}
use layer_backend.Platform.Laws.{
  find_unique-update_many, create_new_seen, create_new_fresh, find_unique-create_fresh,
}
use layer_backend.World.{World, Db, call, returning}
use layer_backend.Stock.Types.{StockTarget}
use layer_backend.Stock.Service.{try_one}
use layer_backend.BcEvents.Inbox.{
  KafkaMessageMeta, identity, new_event, record_event, update_event, mark_failed, fail,
}
use layer_backend.BcEvents.Ingest.{IngestOutcome}

module _ (p : Platform) where
  -- The inbox row of a message.
  abbrev pub event_row : Db p → KafkaMessageMeta → Option BcEvent
  event_row db meta = p.bc_event.find_unique (identity meta) db.events

  abbrev pub status_of : Option BcEvent → Option BcEventStatus
  status_of none = none
  status_of (some event) = some event.status

  abbrev pub payload_of : Option BcEvent → Option Json
  payload_of none = none
  payload_of (some event) = some event.payload

  -- Only the inbox differs.
  abbrev pub OnlyInbox : Db p → Db p → Type 0
  OnlyInbox a b = b ≡ record a { events = b.events }

  -- What `record` gives: whether the message is new, or the failure of its call.
  abbrev pub Records :
      BcEventType → Json → KafkaMessageMeta → World p → Result Bool × World p → Type 0
  Records type payload meta w (ok is_new, w') =
      (if is_new
        then (event_row w.db meta ≡ none)
          × (event_row w'.db meta ≡ some (new_event type payload meta (p.now w.tick)))
        else ((is_some (event_row w.db meta) ≡ true) × (w'.db ≡ w.db)))
      × OnlyInbox w.db w'.db
  Records type payload meta w (err e, w') = (p.fault w.tick ≡ some e) × (w'.db ≡ w.db)

  pub record_event-Records :
      (type : BcEventType) (payload : Json) (meta : KafkaMessageMeta) (w : World p)
      → Records type payload meta w (record_event p type payload meta w)
  unfolding record_event call
  record_event-Records type payload meta w =
      let event = new_event type payload meta (p.now w.tick) in
      elim (Option-cases (event_row w.db meta)) [
        | inl fresh ↦ ground (
          arith,
          create_new_fresh p.bc_event (identity meta) event w.db.events fresh,
          find_unique-create_fresh p.bc_event (identity meta) event w.db.events fresh,
        )
        | inr (old, seen) ↦
            ground (arith, create_new_seen p.bc_event (identity meta) event old w.db.events seen)
      ]

  -- The update of the message's row: its change, or a rejection; the other tables stay.
  abbrev pub Updates :
      KafkaMessageMeta → (BcEvent → BcEvent) → World p → Result (Unit {0}) × World p → Type 0
  Updates meta change w (ok done, w') =
      (event_row w'.db meta ≡ Option.map change (event_row w.db meta))
      × (is_some (event_row w'.db meta) ≡ true)
      × OnlyInbox w.db w'.db
  Updates meta change w (err e, w') = OnlyInbox w.db w'.db

  pub update_event-Updates :
      (meta : KafkaMessageMeta) (change : BcEvent → BcEvent) (w : World p)
      → Updates meta change w (update_event p meta change w)
  unfolding update_event returning
  update_event-Updates meta change w = ground (
    arith,
    find_unique-update_many p.bc_event (identity meta) (λ k event. event_key.same k (identity meta))
        change w.db.events,
    (event_key.same_iff (identity meta) (identity meta)).1 refl,
  )

  -- The calculations after a message never reject: each failure is swallowed.
  pub try_all-ok : (ts : List StockTarget) (w : World p) → (for_all (try_one p) ts w).0 ≡ ok tt
  unfolding for_all try_one settled
  try_all-ok [] w = refl
  try_all-ok (t ∷ ts) w = try_all-ok ts (try_one p t w).1

  -- What an ingest says by its outcome. `duplicate`: the message was in the inbox, and nothing is
  -- changed. `processed`: it was new, and its row says so. `malformed` and `failed`: it was new, its
  -- row is FAILED and holds the payload, and no other table has changed. A rejection: no other table
  -- has changed.
  abbrev pub Settles : Json → KafkaMessageMeta → World p → Result IngestOutcome × World p → Type 0
  Settles payload meta w (ok IngestOutcome.duplicate, w') =
      (is_some (event_row w.db meta) ≡ true) × (w'.db ≡ w.db)
  Settles payload meta w (ok IngestOutcome.processed, w') =
      (event_row w.db meta ≡ none)
      × (status_of (event_row w'.db meta) ≡ some BcEventStatus.processed)
  Settles payload meta w (ok IngestOutcome.malformed, w') =
      (event_row w.db meta ≡ none)
      × (status_of (event_row w'.db meta) ≡ some BcEventStatus.failed)
      × (payload_of (event_row w'.db meta) ≡ some payload)
      × OnlyInbox w.db w'.db
  Settles payload meta w (ok IngestOutcome.failed, w') =
      (event_row w.db meta ≡ none)
      × (status_of (event_row w'.db meta) ≡ some BcEventStatus.failed)
      × (payload_of (event_row w'.db meta) ≡ some payload)
      × OnlyInbox w.db w'.db
  Settles payload meta w (err e, w') = OnlyInbox w.db w'.db

  -- A message that could not be applied is parked, from a database that differs from `w` by the
  -- message's row.
  pub parked :
      (payload : Json) (meta : KafkaMessageMeta) (error : String) (w v : World p) (event : BcEvent)
      → event_row w.db meta ≡ none
      → event_row v.db meta ≡ some event
      → event.payload ≡ payload
      → OnlyInbox w.db v.db
      → Settles payload meta w ((mark_failed p meta error >> pure IngestOutcome.failed) v)
        × Settles payload meta w ((mark_failed p meta error >> pure IngestOutcome.malformed) v)
  unfolding mark_failed
  parked payload meta error w v event new row same only =
      ground (arith, update_event-Updates meta (fail error (p.now v.tick)) v)
