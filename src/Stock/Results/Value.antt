-- ===== src/Stock/Results/Value.antt =====
-- What a calculation that resolves has stored for its pair: stock.recalculate.service.ts.
use layer_backend.Base.{
  ℕ, Bool, true, false, Option, none, some, ◌≡◌, ◌⊎◌, inl, inr, arith, Bool-cases,
}
use layer_backend.Base.Int.{ℤ}
use layer_backend.Exec.{Result, ok, err}
use layer_backend.Schema.{EcomStock}
use layer_backend.Platform.{Platform}
use layer_backend.Platform.Laws.{find_unique-upsert_self}
use layer_backend.World.{World, Db}
use layer_backend.Stock.Types.{StockTarget, StockCalculationResult, StockRecalculationResult}
use layer_backend.Stock.Repositories.Tasks.{identity}
use layer_backend.Ecom.Repositories.{new_ecom_stock, revise_ecom_stock}
use layer_backend.EcomApi.{get_reserved_quantity}
use layer_backend.Stock.Calculate.{calculate}
use layer_backend.Stock.Repositories.ShopStocks.{region_sum}
use layer_backend.Stock.Recalculate.{last_reserved, should_publish, run}
use layer_backend.Stock.Results.Finish.{finished}
use layer_backend.Stock.Results.Run.{
  ecom_row, region_buffer, asking, SameResults, RunsTo, run-RunsTo,
}

module _ (p : Platform) where
  -- The quantity, the reservations and the flag of a row.
  abbrev pub stored_of : Option EcomStock → Option (ℤ × ℤ × Bool)
  stored_of none = none
  stored_of (some row) = some (row.quantity, row.reserved, row.reservations_stale)

  -- How a run ends. If it resolves, its value is the formula over what the shops of the region hold,
  -- the decision to publish follows from the row that the pair had, the reservations are e-com's
  -- answer to the run's request or the stored ones, the buffer is that of the region, and the pair
  -- has a row with this quantity and these reservations.
  abbrev pub Calculates : StockTarget → World p → Result StockRecalculationResult × World p → Type 0
  Calculates t w (ok r, w') =
      (r.value
        ≡ calculate (record {
          shops_total = region_sum p t.variant_id t.region_id w.db;
          safety_buffer = r.value.safety_buffer;
          reserved = r.value.reserved;
        }))
      × (region_buffer p w.db t.region_id ≡ some r.value.safety_buffer)
      × (r.published
          ≡ should_publish r.value.quantity r.reservations_stale (ecom_row p w.db (identity t)))
      × (((r.reservations_stale ≡ false)
            × ((get_reserved_quantity p t (asking p w)).0 ≡ ok r.value.reserved))
          ⊎ ((r.reservations_stale ≡ true)
              × (r.value.reserved ≡ last_reserved (ecom_row p w.db (identity t)))))
      × (stored_of (ecom_row p w'.db (identity t))
          ≡ some (r.value.quantity, r.value.reserved, r.reservations_stale))
  Calculates t w (err e, w') = SameResults p w.db w'.db

  stored-finished :
      (t : StockTarget) (value : StockCalculationResult) (stale publish : Bool) (n : ℕ) (db : Db p)
      → stored_of (ecom_row p (finished p t value stale publish n db) (identity t))
        ≡ some (value.quantity, value.reserved, stale)
  stored-finished t value stale publish n db = ground (
    arith,
    find_unique-upsert_self p.ecom_stock (identity t) (new_ecom_stock value stale publish (p.now n))
        (revise_ecom_stock value stale publish (p.now n)) db.ecom_stocks,
  )

  -- A calculation that resolves has stored the formula's value over the stock that the shops of the
  -- region held and the safety buffer of the region, with the reservations that e-com confirmed when
  -- the run asked it, or else with those stored before, and has decided to publish by the row that the pair had. One that rejects has changed no result and
  -- queued nothing.
  pub run-Calculates : (t : StockTarget) (w : World p) → Calculates t w (run p t w)
  run-Calculates t w = go (run p t w) (run-RunsTo p t w)
    where
      go : (x : Result StockRecalculationResult × World p) → RunsTo p t w x → Calculates t w x
      go (ok r, w') (v, same, is_db, is_r, decided, (buffer, formula), stale, fresh) = (
        formula,
        buffer,
        decided,
        elim (Bool-cases r.reservations_stale) [
          | inl yes_stale ↦ inr (yes_stale, stale yes_stale)
          | inr no_stale ↦ inl (no_stale, fresh no_stale)
        ],
        rw (is_db) (stored-finished t r.value r.reservations_stale r.published v.tick v.db),
      )
      go (err e, w') same = same
