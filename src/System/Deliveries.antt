-- ===== src/System/Deliveries.antt =====
-- The life of an outbox row, as e-com may rely on it, and the service that implements it.
use layer_backend.Base.{
  ℕ, String, Bool, true, false, Option, none, some, List, [], ◌∷◌, ◌≡◌, refl, sym, ◌==◌, subst,
  arith, if◌then◌else◌, Option-cases, inl, inr,
}
use layer_backend.Exec.{Result, ok, err}
use layer_backend.Schema.{EcomStockOutbox, OutboxStatus}
use layer_backend.Platform.{Platform}
use layer_backend.Platform.Laws.{
  find_unique-create_kept, find_unique-create_missing, find_unique-update_many,
}
use layer_backend.World.{World, Db}
use layer_backend.World.Keeps.{Keeps, Keeps-execute, keeps_rules}
use layer_backend.Stock.Types.{StockTarget, StockCalculationResult, StockRecalculationResult}
use layer_backend.Stock.Recalculate.{run}
use layer_backend.Stock.Results.Finish.{finished}
use layer_backend.Stock.Results.Run.{RunsTo, run-RunsTo}
use layer_backend.Ecom.Repositories.{
  send_row, fail_row, among, mark_sent, mark_published, record_failure,
}
use layer_backend.Ecom.Drain.{outbox_status, status_at}
use layer_backend.Frames.Workers.{publish_pending-Keeps}
use layer_backend.Frames.Ingest.{ignoring}
use layer_backend.System.Steps.{Reach}
use layer_backend.System.Keeps.{stock_event-Secures, Reach-Keeps}

-- The abstract row: it is queued once, and then at most delivered.
pub data DeliveryStep : Option OutboxStatus → Option OutboxStatus → Type 0 where
  queue : DeliveryStep none (some OutboxStatus.pending)
  deliver : (status : OutboxStatus) → DeliveryStep (some status) (some OutboxStatus.sent)

pub data Deliveries (s : Option OutboxStatus) : Option OutboxStatus → Type 0 where
  stay : Deliveries s s
  after : {t u : Option OutboxStatus} → Deliveries s t → DeliveryStep t u → Deliveries s u

module _ (p : Platform) (s : Option OutboxStatus) (id : ℕ) where
  -- The row is where its life may have led from `s`.
  abbrev Lives : Db p → Type 0
  Lives db = Deliveries s (status_at p db id)

  same_status : (a b : Db p) → status_at p b id ≡ status_at p a id → Lives a → Lives b
  same_status a b e h = subst (Deliveries s) (sym e) h

  -- A new row of that id is queued if there was none; any other row leaves it alone.
  created-Lives :
      (new : ℕ) (row : EcomStockOutbox) (db : Db p)
      → row.status ≡ OutboxStatus.pending
      → Lives db
      → Deliveries s (outbox_status p (p.outbox.find_unique id (p.outbox.create new row db.outbox)))
  created-Lives new row db fresh h = elim (Option-cases (p.outbox.find_unique id db.outbox)) [
    | inr (old, there) ↦
        rw (find_unique-create_kept p.outbox id new row old db.outbox there) (rw there at h)
    | inl missing ↦
        rw (find_unique-create_missing p.outbox id new row db.outbox missing)
          (appears (new == id) (rw missing at h))
  ]
    where
      appears :
          (b : Bool)
          → Deliveries s none
          → Deliveries s (outbox_status p (if b then some row else none))
      appears true k = rw fresh (after k queue)
      appears false k = k

  finished-Lives :
      (t : StockTarget) (value : StockCalculationResult) (stale publish : Bool) (n : ℕ) (db : Db p)
      → Lives db
      → Lives (finished p t value stale publish n db)
  finished-Lives t value stale true n db h = created-Lives _ _ db refl h
  finished-Lives t value stale false n db h = h

  run-Lives : (t : StockTarget) → Keeps p Lives (run p t)
  run-Lives t = record { at = λ w h. go w h (run p t w) (run-RunsTo p t w) }
    where
      carried : (a b : Db p) → b.outbox ≡ a.outbox → Lives a → Lives b
      carried a b same h =
          subst (λ o. Deliveries s (outbox_status p (p.outbox.find_unique id o))) (sym same) h

      go :
          (w : World p)
          → Lives w.db
          → (x : Result StockRecalculationResult × World p) → RunsTo p t w x
          → Lives x.1.db
      go w h (ok r, w') (v, same, is_db, is_r, decided, formula, stale, fresh) = rw is_db (
          finished-Lives t r.value r.reservations_stale r.published v.tick v.db
            (carried w.db v.db same.1 h))
      go w h (err e, w') same = carried w.db w'.db same.1 h

  abbrev sent_status : List ℕ → Option OutboxStatus → Option OutboxStatus
  sent_status ids none = none
  sent_status ids (some status) = if among ids id then some OutboxStatus.sent else some status

  sent-status :
      (ids : List ℕ) (time : ℕ) (db : Db p)
      → outbox_status p (
          p.outbox.find_unique id
            (p.outbox.update_many (λ k row. among ids k) (send_row time) db.outbox))
        ≡ sent_status ids (status_at p db id)
  sent-status ids time db =
      ground (
        arith,
        find_unique-update_many p.outbox id (λ k row. among ids k) (send_row time) db.outbox,
      )

  failed-status :
      (ids : List ℕ) (error : String) (db : Db p)
      → outbox_status p (
          p.outbox.find_unique id
            (p.outbox.update_many (λ k row. among ids k) (fail_row error) db.outbox))
        ≡ status_at p db id
  failed-status ids error db =
      ground (
        arith,
        find_unique-update_many p.outbox id (λ k row. among ids k) (fail_row error) db.outbox,
      )

  sent-Lives :
      (ids : List ℕ) (o : Option OutboxStatus) → Deliveries s o → Deliveries s (sent_status ids o)
  sent-Lives ids none h = h
  sent-Lives ids (some status) h = go (among ids id)
    where
      go : (b : Bool) → Deliveries s (if b then some OutboxStatus.sent else some status)
      go true = after h (deliver status)
      go false = h

  mark_sent-Lives : (ids : List ℕ) (time : ℕ) → Keeps p Lives (mark_sent p ids time)
  unfolding mark_sent
  mark_sent-Lives ids time =
      Keeps-execute p _
        (λ db h. rw (sent-status ids time db) (sent-Lives ids (status_at p db id) h))

  record_failure-Lives :
      (ids : List ℕ) (error : String) → Keeps p Lives (record_failure p ids error)
  unfolding record_failure
  record_failure-Lives ids error = Keeps-execute p _ (λ db h. rw (failed-status ids error db) h)

  mark_published-Lives :
      (pairs : List (ℕ × ℕ)) (time : ℕ) → Keeps p Lives (mark_published p pairs time)
  unfolding mark_published
  mark_published-Lives [] time = search keeps_rules
  mark_published-Lives (x ∷ xs) time = Keeps-execute p _ (λ db h. h)

  Reach-Lives : (w v : World p) → Reach p w v → Lives w.db → Lives v.db
  Reach-Lives w v r h =
      Reach-Keeps p Lives run-Lives
        (publish_pending-Keeps p mark_sent-Lives record_failure-Lives mark_published-Lives)
        (ignoring p (λ db t h. h))
        (stock_event-Secures p (λ db t h. h) (λ db t h. h) (λ db t h. h) (λ db t h. h) (λ db t h. h)
          (λ db t h. h))
        (λ db t h. h) (λ db t h. h) (λ db t h. h) (λ db t h. h) r h

module _ (p : Platform) where
  -- However the service is driven, what happens to a row of the outbox is what the abstract row
  -- allows: an absent row is queued as PENDING, a row that is there at most becomes SENT, and it
  -- never goes back, disappears, or becomes FAILED.
  pub Reach-Deliveries :
      (id : ℕ) (w v : World p)
      → Reach p w v
      → Deliveries (status_at p w.db id) (status_at p v.db id)
  Reach-Deliveries id w v r = Reach-Lives p (status_at p w.db id) id w v r stay
