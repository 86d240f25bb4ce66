-- ===== src/Pipeline/Withheld.antt =====
-- The flag `withheld` of a trace, and the decision that a calculation took: pipeline.service.ts and
-- stock.recalculate.service.ts.
use layer_backend.Base.{
  ℕ, String, Bool, true, false, not, Option, none, some, ◌≡◌, refl, ap, sym, ◌∙◌, arith,
}
use layer_backend.Exec.{Result, ok, err}
use layer_backend.Schema.{EcomStock}
use layer_backend.Platform.{Platform}
use layer_backend.Platform.Laws.{find_unique-upsert_self}
use layer_backend.World.{World}
use layer_backend.Stock.Types.{StockTarget, StockCalculationResult, StockRecalculationResult}
use layer_backend.Stock.Repositories.Tasks.{identity}
use layer_backend.Ecom.Repositories.{new_ecom_stock, revise_ecom_stock}
use layer_backend.Stock.Recalculate.{should_publish, run}
use layer_backend.Stock.Results.Run.{ecom_row, RunsTo, run-RunsTo}
use layer_backend.Base.Rows.{upserted}
use layer_backend.Joins.{JoinedResult}
use layer_backend.Pipeline.Service.{is_withheld, to_calculation}

-- What a trace shows of a row of a region.
abbrev pub shown : String → String → EcomStock → JoinedResult
shown region_code region_name row = record {
  region_code = region_code;
  region_name = region_name;
  stock = row;
}

stored-withheld :
    (value : StockCalculationResult) (stale publish : Bool) (time : ℕ) (before : Option EcomStock)
    → publish ≡ should_publish value.quantity stale before
    → let row =
        upserted
          (new_ecom_stock value stale publish time)
          (revise_ecom_stock value stale publish time)
          before in
      is_withheld row.published_quantity row.quantity ≡ not publish
unfolding should_publish
stored-withheld value true publish time none h = ground (arith, h)
stored-withheld value false publish time none h = ground (arith, h)
stored-withheld value true publish time (some row) h = ground (arith, h)
stored-withheld value false publish time (some row) h = ground (arith, h)

module _ (p : Platform) (region_code region_name : String) where
  -- After a calculation that resolves there is a stored result with its quantity, and the trace calls
  -- it withheld if it was not published.
  abbrev pub Withholds : StockTarget → Result StockRecalculationResult × World p → Type 0
  Withholds t (ok r, w') =
      (row : EcomStock) × (ecom_row p w'.db (identity t) ≡ some row)
      × (row.quantity ≡ r.value.quantity)
      × ((to_calculation (shown region_code region_name row)).withheld ≡ not r.published)
  Withholds t (err e, w') = Unit

  withholds :
      (t : StockTarget) (w : World p) (x : Result StockRecalculationResult × World p)
      → RunsTo p t w x
      → Withholds t x
  withholds t w (err e, w') h = tt
  withholds t w (ok r, w') (v, same, is_db, is_r, decided, formula, stale, fresh) =
      let row =
        upserted (new_ecom_stock r.value r.reservations_stale r.published (p.now v.tick))
          (revise_ecom_stock r.value r.reservations_stale r.published (p.now v.tick))
          (ecom_row p v.db (identity t)) in
      (
        row,
        ap (λ db. ecom_row p db (identity t)) is_db
            ∙ find_unique-upsert_self p.ecom_stock (identity t) _ _ v.db.ecom_stocks,
        quantity r.value r.reservations_stale r.published (p.now v.tick)
            (ecom_row p v.db (identity t)),
        stored-withheld r.value r.reservations_stale r.published (p.now v.tick)
            (ecom_row p v.db (identity t))
            (decided
              ∙ ap
                  (λ t'.
                    should_publish r.value.quantity r.reservations_stale
                      (p.ecom_stock.find_unique (identity t) t'))
                  (sym same.0)),
      )
    where
      quantity :
          (value : StockCalculationResult) (stale publish : Bool) (time : ℕ)
          (before : Option EcomStock)
          → (upserted
              (new_ecom_stock value stale publish time)
              (revise_ecom_stock value stale publish time)
              before).quantity
            ≡ value.quantity
      quantity value stale publish time none = refl
      quantity value stale publish time (some row) = refl

  -- After a calculation that resolves, the stored result of the pair has the calculated quantity, and
  -- a trace shows it as withheld exactly if the calculation has not published it.
  pub run-Withholds : (t : StockTarget) (w : World p) → Withholds t (run p t w)
  run-Withholds t w = withholds t w (run p t w) (run-RunsTo p t w)
