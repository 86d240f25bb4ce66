-- ===== src/Stock/Results/Finish.antt =====
-- The transaction of a calculation: all of its writes, or none.
use layer_backend.Base.{ℕ, suc, Bool, true, false, ◌≡◌, arith, if◌then◌else◌}
use layer_backend.Exec.{Result, ok, err, rethrow}
use layer_backend.Platform.{Platform, pair_of_ids}
use layer_backend.World.{World, Db, execute, transaction}
use layer_backend.Stock.Types.{StockTarget, StockCalculationResult, StockRecalculationResult}
use layer_backend.Stock.Repositories.Tasks.{identity, close, mark_done}
use layer_backend.Ecom.Repositories.{
  new_ecom_stock, revise_ecom_stock, new_outbox_row, upsert, enqueue,
}
use layer_backend.Ecom.Service.{save_calculated, enqueue_publication, publish_soon}
use layer_backend.Stock.Recalculate.{store, finish}

module _ (p : Platform) where
  -- The database once a result is stored by calls that start at the `n`-th.
  abbrev pub finished : StockTarget → StockCalculationResult → Bool → Bool → ℕ → Db p → Db p
  finished t value stale publish n db = record db {
    ecom_stocks =
        p.ecom_stock.upsert (identity t) (new_ecom_stock value stale publish (p.now n))
          (revise_ecom_stock value stale publish (p.now n)) db.ecom_stocks;
    outbox =
        if publish
        then p.outbox.create (p.uuid (suc n)) (new_outbox_row t value.quantity (p.now (suc n)))
            db.outbox
        else db.outbox;
    tasks =
        if stale
        then db.tasks
        else p.task.update_many (λ k task. pair_of_ids.same k (identity t))
            (close (p.now (if publish then suc (suc n) else suc n))) db.tasks;
  }

  abbrev pub result_of :
      StockTarget → StockCalculationResult → Bool → Bool → StockRecalculationResult
  result_of t value stale publish = record {
    value = value;
    region_code = t.region_code;
    reservations_stale = stale;
    published = publish;
  }

  -- How a run of `finish` from `w` has ended: with every write of the result, or with none.
  abbrev pub Finishes :
      StockTarget
      → StockCalculationResult
      → Bool
      → Bool
      → World p
      → Result StockRecalculationResult × World p
      → Type 0
  Finishes t value stale publish w (ok r, w') =
      (r ≡ result_of t value stale publish) × (w'.db ≡ finished t value stale publish w.tick w.db)
  Finishes t value stale publish w (err e, w') = w'.db ≡ w.db

  -- The transaction of a calculation stores the result, the outbox row where it publishes, and the
  -- closed task where the reservations are not stale; when any of its calls fails, it stores none of
  -- them, and rejects.
  pub finish-Finishes :
      (t : StockTarget) (value : StockCalculationResult) (stale publish : Bool) (w : World p)
      → Finishes t value stale publish w (finish p t value stale publish w)
  unfolding finish store transaction save_calculated enqueue_publication publish_soon upsert enqueue
      mark_done execute rethrow
  finish-Finishes t value true true w = ground arith
  finish-Finishes t value true false w = ground arith
  finish-Finishes t value false true w = ground arith
  finish-Finishes t value false false w = ground arith
