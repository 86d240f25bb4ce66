-- ===== src/System/Flights/Decisions.antt =====
-- The two parts of a run are the run; and what a run has decided when it takes off.
use layer_backend.Base.{◌≡◌, refl, ap, ◌∙◌, arith}
use layer_backend.Base.Int.{ℤ}
use layer_backend.Shared.Errors.{Exception}
use layer_backend.Exec.{Result, ok, err, pure, rethrow, ◌>>=◌}
use layer_backend.Schema.{EcomStock}
use layer_backend.Base.{Option}
use layer_backend.Platform.{Platform}
use layer_backend.World.{World, Db, M}
use layer_backend.World.Ends.{bind-ends, rethrow-ends, query-ok}
use layer_backend.Frames.Tables.{find_safety_buffer-Keeps, sum_for_region-Keeps}
use layer_backend.Frames.Runs.{get_current-Keeps, read_reservations-Keeps}
use layer_backend.Stock.Types.{StockTarget}
use layer_backend.Stock.Calculate.{calculate}
use layer_backend.Stock.Repositories.Shops.{find_safety_buffer}
use layer_backend.Stock.Repositories.ShopStocks.{sum_for_region}
use layer_backend.Stock.Repositories.Tasks.{identity}
use layer_backend.Stock.Recalculate.{
  Reservations, should_publish, read_reservations, calculate_and_store, run,
}
use layer_backend.Stock.Results.Run.{ecom_row, SameResults}
use layer_backend.Ecom.Repositories.{find_current}
use layer_backend.Ecom.Service.{get_current}
use layer_backend.System.Flights.{Flight, decide, take_off, land}

module _ (p : Platform) where
  -- A run is its take-off and its landing, with nothing between them.
  pub run-take_off : (t : StockTarget) (w : World p) → run p t w ≡ (take_off p t >>= land p) w
  unfolding run calculate_and_store take_off land decide rethrow
  run-take_off t w = ground arith

  -- How a take-off has ended: the results and the outbox are as they were, and the decision follows
  -- from the result that was stored then.
  abbrev pub Decides : StockTarget → Db p → Result Flight × World p → Type 0
  Decides t db (ok f, w') =
      SameResults p db w'.db
      × (f.target ≡ t)
      × (f.publish ≡ should_publish f.value.quantity f.stale (ecom_row p db (identity t)))
  Decides t db (err e, w') = SameResults p db w'.db

  module _ (t : StockTarget) (db : Db p) where
    -- `decide` from each of its reads on.
    abbrev decided : ℤ → ℤ → Option EcomStock → Reservations → M p Flight
    decided total buffer current res =
        let value =
          calculate
            (record { shops_total = total; safety_buffer = buffer; reserved = res.reserved }) in
        pure (record {
          target = t;
          value = value;
          stale = res.stale;
          publish = should_publish value.quantity res.stale current;
        })

    abbrev asked : ℤ → ℤ → Option EcomStock → M p Flight
    asked total buffer current = read_reservations p t current >>= decided total buffer current

    abbrev compared : ℤ → ℤ → M p Flight
    compared total buffer = get_current p t.variant_id t.region_id >>= asked total buffer

    abbrev buffered : ℤ → M p Flight
    buffered total = find_safety_buffer p t.region_id >>= compared total

    asked-Decides :
        (total buffer : ℤ) (current : Option EcomStock) (w : World p)
        → SameResults p db w.db
        → current ≡ ecom_row p db (identity t)
        → Decides t db (asked total buffer current w)
    asked-Decides total buffer current w same row =
        bind-ends p (Decides t db) (read_reservations p t current) (decided total buffer current) w
          (λ res h. (kept, refl, ap (should_publish _ res.stale) row)) (λ e h. kept)
      where
        kept : SameResults p db (read_reservations p t current w).1.db
        kept =
            (read_reservations-Keeps p {P = SameResults p db} (λ d tasks h. h) t current).at w same

    get_current-row :
        (w : World p) (current : Option EcomStock)
        → SameResults p db w.db
        → (get_current p t.variant_id t.region_id w).0 ≡ ok current
        → current ≡ ecom_row p db (identity t)
    unfolding get_current find_current
    get_current-row w current same h =
        query-ok p _ w current h ∙ ap (p.ecom_stock.find_unique (identity t)) same.0

    compared-Decides :
        (total buffer : ℤ) (w : World p)
        → SameResults p db w.db
        → Decides t db (compared total buffer w)
    compared-Decides total buffer w same =
        bind-ends p (Decides t db) (get_current p t.variant_id t.region_id) (asked total buffer) w
          (λ current h.
            asked-Decides total buffer current (get_current p t.variant_id t.region_id w).1 kept
              (get_current-row w current same h))
          (λ e h. kept)
      where
        kept : SameResults p db (get_current p t.variant_id t.region_id w).1.db
        kept = (get_current-Keeps p {P = SameResults p db} t.variant_id t.region_id).at w same

    buffered-Decides :
        (total : ℤ) (w : World p) → SameResults p db w.db → Decides t db (buffered total w)
    buffered-Decides total w same =
        bind-ends p (Decides t db) (find_safety_buffer p t.region_id) (compared total) w
          (λ buffer h. compared-Decides total buffer (find_safety_buffer p t.region_id w).1 kept)
          (λ e h. kept)
      where
        kept : SameResults p db (find_safety_buffer p t.region_id w).1.db
        kept = (find_safety_buffer-Keeps p {P = SameResults p db} t.region_id).at w same

    decide-Decides : (w : World p) → SameResults p db w.db → Decides t db (decide p t w)
    unfolding decide
    decide-Decides w same =
        bind-ends p (Decides t db) (sum_for_region p t.variant_id t.region_id) buffered w
          (λ total h. buffered-Decides total (sum_for_region p t.variant_id t.region_id w).1 kept)
          (λ e h. kept)
      where
        kept : SameResults p db (sum_for_region p t.variant_id t.region_id w).1.db
        kept = (sum_for_region-Keeps p {P = SameResults p db} t.variant_id t.region_id).at w same

  pub take_off-Decides : (t : StockTarget) (w : World p) → Decides t w.db (take_off p t w)
  unfolding take_off
  take_off-Decides t w =
      rethrow-ends p (Decides t w.db) _ (decide p t) w
        (λ f h. resolved _ f h (decide-Decides t w.db w (refl, refl)))
        (λ e h. rejected _ e h (decide-Decides t w.db w (refl, refl)))
    where
      resolved :
          (x : Result Flight × World p) (f : Flight)
          → x.0 ≡ ok f
          → Decides t w.db x
          → Decides t w.db (ok f, x.1)
      resolved (r, v) f h d = rw h at d

      rejected :
          (x : Result Flight × World p) (e : Exception)
          → x.0 ≡ err e
          → Decides t w.db x
          → SameResults p w.db x.1.db
      rejected (r, v) e h d = rw h at d
