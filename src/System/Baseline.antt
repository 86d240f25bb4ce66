-- ===== src/System/Baseline.antt =====
-- The baseline of a pair, which the service takes for the number that e-com holds, and the outbox.
use layer_backend.Base.{
  ℕ, suc, String, Bool, true, false, Option, some, List, [], ◌∷◌, ◌≡◌, sym, ◌∙◌, ap, arith,
  if◌then◌else◌,
}
use layer_backend.Base.Int.{ℤ}
use layer_backend.Exec.{Result, ok, err}
use layer_backend.Schema.{EcomStock}
use layer_backend.Platform.{Platform, pair_of_ids}
use layer_backend.Platform.Laws.{find_unique-update_many}
use layer_backend.World.{World, Db}
use layer_backend.World.Keeps.{Keeps, Keeps-execute, keeps_rules}
use layer_backend.Stock.Types.{StockTarget, StockCalculationResult, StockRecalculationResult}
use layer_backend.Stock.Repositories.Tasks.{identity}
use layer_backend.Stock.Recalculate.{run}
use layer_backend.Stock.Results.Finish.{finished}
use layer_backend.Stock.Results.Run.{SameResults, RunsTo, run-RunsTo}
use layer_backend.Stock.Results.Publish.{published_of, baseline, baseline-finished}
use layer_backend.Ecom.Repositories.{
  new_outbox_row, send_row, fail_row, among, among_pairs, mark_sent, mark_published, record_failure,
}
use layer_backend.Ecom.Latest.{latest, latest-append, latest-send, latest-fail}
use layer_backend.Ecom.Publisher.{publish_pending}
use layer_backend.Frames.Workers.{publish_pending-Keeps}
use layer_backend.Frames.Ingest.{ignoring}
use layer_backend.System.Steps.{Reach}
use layer_backend.System.Keeps.{stock_event-Secures, Reach-Keeps}

module _ (p : Platform) (k : ℕ × ℕ) where
  -- The quantity that was queued last for the pair.
  abbrev pub queued_last : Db p → Option ℤ
  queued_last db = latest k (p.outbox.rows db.outbox)

  -- What the service takes e-com to hold is what it has queued last.
  abbrev pub Agrees : Db p → Type 0
  Agrees db = baseline p db k ≡ queued_last db

  pub queued_last-finished :
      (t : StockTarget) (value : StockCalculationResult) (stale publish : Bool) (n : ℕ) (db : Db p)
      → queued_last (finished p t value stale publish n db) ≡ (
          if pair_of_ids.same (identity t) k
          then (if publish then some value.quantity else queued_last db)
          else queued_last db)
  queued_last-finished t value stale false n db = ground arith
  queued_last-finished t value stale true n db =
      ap (latest k) (
        p.outbox.rows-create (p.uuid (suc n)) (new_outbox_row t value.quantity (p.now (suc n)))
          db.outbox)
      ∙ latest-append k (p.uuid (suc n)) (new_outbox_row t value.quantity (p.now (suc n)))
          (p.outbox.rows db.outbox)

  run-Agrees : (t : StockTarget) → Keeps p Agrees (run p t)
  run-Agrees t = record { at = λ w h. go w h (run p t w) (run-RunsTo p t w) }
    where
      carried : (a b : Db p) → SameResults p a b → Agrees a → Agrees b
      carried a b same h =
          ap (λ x. published_of p (p.ecom_stock.find_unique k x)) same.0
          ∙ h
          ∙ ap (λ x. latest k (p.outbox.rows x)) (sym same.1)

      stored :
          (value : StockCalculationResult) (stale publish : Bool) (n : ℕ) (db : Db p)
          → Agrees db
          → Agrees (finished p t value stale publish n db)
      stored value stale publish n db h = ground (
        arith,
        baseline-finished p t value stale publish n db k,
        queued_last-finished t value stale publish n db,
      )

      go :
          (w : World p)
          → Agrees w.db
          → (x : Result StockRecalculationResult × World p) → RunsTo p t w x
          → Agrees x.1.db
      go w h (ok r, w') (v, same, is_db, is_r, decided, formula, stale, fresh) =
          rw (is_db)
            (stored r.value r.reservations_stale r.published v.tick v.db (carried w.db v.db same h))
      go w h (err e, w') same = carried w.db w'.db same h

  -- The drain changes neither the baseline of a pair nor the quantities of the outbox.
  pub mark_sent-Agrees : (ids : List ℕ) (time : ℕ) → Keeps p Agrees (mark_sent p ids time)
  unfolding mark_sent
  mark_sent-Agrees ids time = Keeps-execute p _ (λ db h.
      h
      ∙ sym (
          ap (latest k)
            (p.outbox.rows-update_many (λ id row. among ids id) (send_row time) db.outbox)
          ∙ latest-send (λ id row. among ids id) k time (p.outbox.rows db.outbox)))

  pub record_failure-Agrees :
      (ids : List ℕ) (error : String) → Keeps p Agrees (record_failure p ids error)
  unfolding record_failure
  record_failure-Agrees ids error = Keeps-execute p _ (λ db h.
      h
      ∙ sym (
          ap (latest k)
            (p.outbox.rows-update_many (λ id row. among ids id) (fail_row error) db.outbox)
          ∙ latest-fail (λ id row. among ids id) k error (p.outbox.rows db.outbox)))

  pub published-stamp :
      (test : ℕ × ℕ → EcomStock → Bool) (time : ℕ) (db : Db p)
      → published_of p (
          p.ecom_stock.find_unique k (
            p.ecom_stock.update_many test
              (λ stock. record stock { published_at = some time })
              db.ecom_stocks))
        ≡ baseline p db k
  published-stamp test time db = ground (
    arith,
    find_unique-update_many p.ecom_stock k test (λ stock. record stock { published_at = some time })
        db.ecom_stocks,
  )

  pub mark_published-Agrees :
      (pairs : List (ℕ × ℕ)) (time : ℕ) → Keeps p Agrees (mark_published p pairs time)
  unfolding mark_published
  mark_published-Agrees [] time = search keeps_rules
  mark_published-Agrees (x ∷ xs) time =
      Keeps-execute p _ (λ db h. published-stamp (λ j stock. among_pairs (x ∷ xs) j) time db ∙ h)

  publish_pending-Agrees : Keeps p Agrees (publish_pending p)
  publish_pending-Agrees =
      publish_pending-Keeps p mark_sent-Agrees record_failure-Agrees mark_published-Agrees

  -- However the service is driven, from a state in which the baseline of the pair is the quantity
  -- that was queued last for it (or both are missing), the two stay equal: what the service takes
  -- e-com to hold is the newest number that it has queued.
  pub Reach-Agrees : (w v : World p) → Reach p w v → Agrees w.db → Agrees v.db
  Reach-Agrees w v r h =
      Reach-Keeps p Agrees run-Agrees publish_pending-Agrees (ignoring p (λ db t h. h))
        (stock_event-Secures p (λ db t h. h) (λ db t h. h) (λ db t h. h) (λ db t h. h) (λ db t h. h)
          (λ db t h. h))
        (λ db t h. h) (λ db t h. h) (λ db t h. h) (λ db t h. h) r h
