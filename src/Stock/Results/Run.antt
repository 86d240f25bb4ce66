-- ===== src/Stock/Results/Run.antt =====
-- A whole run of a calculation, from its reads to its transaction.
use layer_backend.Base.{
  ℕ, Bool, true, false, Option, none, some, suc, arith, subst, String, sym, ◌≡◌, refl, ◌∙◌, ap, ◌⊎◌,
  inl, inr,
}
use layer_backend.Base.Int.{ℤ}
use layer_backend.Shared.Errors.{Exception}
use layer_backend.Exec.{Result, ok, err, pure, ◌>>=◌}
use layer_backend.Schema.{EcomStock, Region}
use layer_backend.Platform.{Platform}
use layer_backend.World.{World, Db, M, query, call}
use layer_backend.World.Ends.{bind-ends, settled-ends, rethrow-ends, query-ok}
use layer_backend.Frames.Runs.{read_reservations-Keeps}
use layer_backend.Stock.Types.{
  StockTarget, StockCalculationResult, StockRecalculationResult, max_attempts,
}
use layer_backend.Stock.Calculate.{calculate}
use layer_backend.Stock.Repositories.ShopStocks.{region_sum, sum_for_region}
use layer_backend.Stock.Repositories.Shops.{find_safety_buffer, region_by_id}
use layer_backend.Stock.Repositories.Tasks.{identity, record_unavailable}
use layer_backend.EcomApi.{get_reserved_quantity}
use layer_backend.Ecom.Repositories.{find_current}
use layer_backend.Ecom.Service.{get_current}
use layer_backend.Stock.Recalculate.{
  Reservations, should_publish, last_reserved, carry_over, take_reserved, read_reservations, finish,
  calculate_and_store, run,
}
use layer_backend.Stock.Results.Finish.{finished, result_of, Finishes, finish-Finishes}

module _ (p : Platform) where
  abbrev buffer_of : Option (String × Region) → Option ℤ
  buffer_of none = none
  buffer_of (some region) = some region.1.safety_buffer

  -- The safety buffer of a region.
  abbrev pub region_buffer : Db p → ℕ → Option ℤ
  region_buffer db id = buffer_of (region_by_id p id db)

  -- The state after one more read.
  abbrev read_once : World p → World p
  read_once w = record w { tick = suc w.tick }

  -- The state in which a run asks e-com: it has read the stock, the buffer and the stored result.
  abbrev pub asking : World p → World p
  asking w = read_once (read_once (read_once w))

  query-read_once : {A : Type 0} (f : Db p → A) (w : World p) → (query p f w).1 ≡ read_once w
  unfolding query call
  query-read_once f w = ground arith

  find_safety_buffer-read_once :
      (id : ℕ) (w : World p) → (find_safety_buffer p id w).1 ≡ read_once w
  unfolding find_safety_buffer query call
  find_safety_buffer-read_once id w = ground arith

  find_safety_buffer-ok :
      (id : ℕ) (w : World p) (buffer : ℤ)
      → (find_safety_buffer p id w).0 ≡ ok buffer
      → region_buffer w.db id ≡ some buffer
  unfolding find_safety_buffer query call
  find_safety_buffer-ok id w buffer h = ground (arith, h)

  -- The stored result of a pair.
  abbrev pub ecom_row : Db p → ℕ × ℕ → Option EcomStock
  ecom_row db k = p.ecom_stock.find_unique k db.ecom_stocks

  -- Where a reservations term comes from: e-com's answer, or the stored one if e-com gave none.
  abbrev pub Sourced : StockTarget → Option EcomStock → World p → Result Reservations → Type 0
  Sourced t current w (ok r) =
      ((r.stale ≡ false) × ((get_reserved_quantity p t w).0 ≡ ok r.reserved))
      ⊎ ((r.stale ≡ true) × (r.reserved ≡ last_reserved current))
  Sourced t current w (err e) = Unit

  carry_over-Sourced :
      (t : StockTarget) (current : Option EcomStock) (e : Exception) (w w' : World p)
      → Sourced t current w (carry_over p t current e w').0
  unfolding carry_over
  carry_over-Sourced t current (Exception.ecom_unavailable m n) w w' =
      bind-ends p (λ x. Sourced t current w x.0) (record_unavailable p t m max_attempts)
        (λ done. pure (record { reserved = last_reserved current; stale = true })) w'
        (λ a h. inr (refl, refl)) (λ e h. tt)
  carry_over-Sourced t current _ w w' = tt

  read_reservations-Sourced :
      (t : StockTarget) (current : Option EcomStock) (w : World p)
      → Sourced t current w (read_reservations p t current w).0
  unfolding read_reservations take_reserved
  read_reservations-Sourced t current w =
      settled-ends p (λ x. Sourced t current w x.0) (get_reserved_quantity p t)
        (take_reserved p t current) w (λ q h. inl (refl, h))
        (λ e h. carry_over-Sourced t current e w _)

  -- The results and the outbox are as they were.
  abbrev pub SameResults : Db p → Db p → Type 0
  SameResults a b = (b.ecom_stocks ≡ a.ecom_stocks) × (b.outbox ≡ a.outbox)

  -- How a run has ended. If it resolved, its value is the formula over the stock of the region, the
  -- decision to publish follows from the stored result, and all was written from a database with
  -- the same results; if it rejected, the results and the outbox are as they were.
  abbrev pub RunsTo : StockTarget → World p → Result StockRecalculationResult × World p → Type 0
  RunsTo t w (ok r, w') =
      (v : World p) × SameResults w.db v.db
      × (w'.db ≡ finished p t r.value r.reservations_stale r.published v.tick v.db)
      × (r ≡ result_of p t r.value r.reservations_stale r.published)
      × (r.published
          ≡ should_publish r.value.quantity r.reservations_stale (ecom_row w.db (identity t)))
      × ((region_buffer w.db t.region_id ≡ some r.value.safety_buffer)
          × (r.value
              ≡ calculate (record {
                shops_total = region_sum p t.variant_id t.region_id w.db;
                safety_buffer = r.value.safety_buffer;
                reserved = r.value.reserved;
              })))
      × ((r.reservations_stale ≡ true)
          → r.value.reserved ≡ last_reserved (ecom_row w.db (identity t)))
      × ((r.reservations_stale ≡ false)
          → (get_reserved_quantity p t (asking w)).0 ≡ ok r.value.reserved)
  RunsTo t w (err e, w') = SameResults w.db w'.db

  -- The last step of a run, from a database with the results of `w`.
  last-RunsTo :
      (t : StockTarget) (w v : World p) (buffer : ℤ) (res : Reservations)
      → SameResults w.db v.db
      → region_buffer w.db t.region_id ≡ some buffer
      → Sourced t (ecom_row w.db (identity t)) (asking w) (ok res)
      → let value = calculate (record {
        shops_total = region_sum p t.variant_id t.region_id w.db;
        safety_buffer = buffer;
        reserved = res.reserved;
      }) in
        RunsTo t w (
          finish p t value res.stale
            (should_publish value.quantity res.stale (ecom_row w.db (identity t)))
            v)
  unfolding calculate
  last-RunsTo t w v buffer res same buffered sourced =
      go (finish p t value res.stale publish v) (finish-Finishes p t value res.stale publish v)
    where
      value : StockCalculationResult
      value = calculate (record {
        shops_total = region_sum p t.variant_id t.region_id w.db;
        safety_buffer = buffer;
        reserved = res.reserved;
      })

      publish : Bool
      publish = should_publish value.quantity res.stale (ecom_row w.db (identity t))

      of_stale :
          ((res.stale ≡ false) × ((get_reserved_quantity p t (asking w)).0 ≡ ok res.reserved))
            ⊎ ((res.stale ≡ true) × (res.reserved ≡ last_reserved (ecom_row w.db (identity t))))
          → res.stale ≡ true
          → res.reserved ≡ last_reserved (ecom_row w.db (identity t))
      of_stale (inl (fresh, answer)) stale = cc
      of_stale (inr (stale, kept)) _ = kept

      of_fresh :
          ((res.stale ≡ false) × ((get_reserved_quantity p t (asking w)).0 ≡ ok res.reserved))
            ⊎ ((res.stale ≡ true) × (res.reserved ≡ last_reserved (ecom_row w.db (identity t))))
          → res.stale ≡ false
          → (get_reserved_quantity p t (asking w)).0 ≡ ok res.reserved
      of_fresh (inl (fresh, answer)) _ = answer
      of_fresh (inr (stale, kept)) fresh = cc

      go :
          (x : Result StockRecalculationResult × World p)
          → Finishes p t value res.stale publish v x
          → RunsTo t w x
      go (ok r, w') (is_r, is_db) =
          rw is_r (v, same, is_db, refl, refl, (buffered, refl), of_stale sourced, of_fresh sourced)
      go (err e, w') is_db = rw is_db same

  -- `calculateAndStore` from each of its reads on.
  abbrev decided :
      StockTarget → ℤ → ℤ → Option EcomStock → Reservations → M p StockRecalculationResult
  decided t total buffer current res =
      let value =
        calculate
          (record { shops_total = total; safety_buffer = buffer; reserved = res.reserved }) in
      finish p t value res.stale (should_publish value.quantity res.stale current)

  abbrev asked : StockTarget → ℤ → ℤ → Option EcomStock → M p StockRecalculationResult
  asked t total buffer current = read_reservations p t current >>= decided t total buffer current

  abbrev compared : StockTarget → ℤ → ℤ → M p StockRecalculationResult
  compared t total buffer = get_current p t.variant_id t.region_id >>= asked t total buffer

  abbrev buffered : StockTarget → ℤ → M p StockRecalculationResult
  buffered t total = find_safety_buffer p t.region_id >>= compared t total

  module _ (t : StockTarget) (w : World p) where
    abbrev total_of : ℤ
    total_of = region_sum p t.variant_id t.region_id w.db

    abbrev row_of : Option EcomStock
    row_of = ecom_row w.db (identity t)

    asked-RunsTo :
        (v : World p) (buffer : ℤ)
        → v ≡ asking w
        → region_buffer w.db t.region_id ≡ some buffer
        → RunsTo t w (asked t total_of buffer row_of v)
    asked-RunsTo v buffer same is_buffer =
        bind-ends p (RunsTo t w) (read_reservations p t row_of) (decided t total_of buffer row_of) v
          (λ res h. last-RunsTo t w _ buffer res kept is_buffer (
            subst (λ u. Sourced t row_of u (ok res)) same
              (rw h at (read_reservations-Sourced t row_of v))))
          (λ e h. kept)
      where
        kept : SameResults w.db (read_reservations p t row_of v).1.db
        kept =
            (read_reservations-Keeps p {P = SameResults w.db} (λ db tasks h. h) t row_of).at v
              (rw same (refl, refl))

    get_current-ok :
        (v : World p) (current : Option EcomStock)
        → v.db ≡ w.db
        → (get_current p t.variant_id t.region_id v).0 ≡ ok current
        → current ≡ row_of
    unfolding get_current find_current
    get_current-ok v current same h =
        query-ok p _ v current h ∙ ap (λ db. ecom_row db (identity t)) same

    get_current-read_once :
        (v : World p) → (get_current p t.variant_id t.region_id v).1 ≡ read_once v
    unfolding get_current find_current
    get_current-read_once v = query-read_once _ v

    compared-RunsTo :
        (v : World p) (buffer : ℤ)
        → v ≡ read_once (read_once w)
        → region_buffer w.db t.region_id ≡ some buffer
        → RunsTo t w (compared t total_of buffer v)
    compared-RunsTo v buffer same is_buffer =
        bind-ends p (RunsTo t w) (get_current p t.variant_id t.region_id) (asked t total_of buffer)
          v
          (λ current h.
            rw (get_current-ok v current (ap (λ u. u.db) same) h)
              (asked-RunsTo _ buffer kept is_buffer))
          (λ e h. rw kept (refl, refl))
      where
        kept : (get_current p t.variant_id t.region_id v).1 ≡ asking w
        kept = get_current-read_once v ∙ ap read_once same

    buffered-RunsTo : (v : World p) → v ≡ read_once w → RunsTo t w (buffered t total_of v)
    buffered-RunsTo v same =
        bind-ends p (RunsTo t w) (find_safety_buffer p t.region_id) (compared t total_of) v
          (λ buffer h. compared-RunsTo _ buffer kept (
            ap (λ u. region_buffer u.db t.region_id) (sym same)
            ∙ find_safety_buffer-ok t.region_id v buffer h))
          (λ e h. rw kept (refl, refl))
      where
        kept : (find_safety_buffer p t.region_id v).1 ≡ read_once (read_once w)
        kept = find_safety_buffer-read_once t.region_id v ∙ ap read_once same

    calculate_and_store-RunsTo : RunsTo t w (calculate_and_store p t w)
    unfolding calculate_and_store sum_for_region
    calculate_and_store-RunsTo =
        bind-ends p (RunsTo t w) (query p (region_sum p t.variant_id t.region_id)) (buffered t) w
          (λ total h. rw (query-ok p _ w total h) (buffered-RunsTo _ kept))
          (λ e h. rw kept (refl, refl))
      where
        kept : (query p (region_sum p t.variant_id t.region_id) w).1 ≡ read_once w
        kept = query-read_once _ w

    resolved :
        (x : Result StockRecalculationResult) (w' : World p) {r : StockRecalculationResult}
        → x ≡ ok r
        → RunsTo t w (x, w')
        → RunsTo t w (ok r, w')
    resolved x w' h runs = rw h at runs

    rejected :
        (x : Result StockRecalculationResult) (w' : World p) (e : Exception)
        → x ≡ err e
        → RunsTo t w (x, w')
        → SameResults w.db w'.db
    rejected (ok r) w' e h runs = cc
    rejected (err e) w' _ h runs = runs

    pub run-RunsTo : RunsTo t w (run p t w)
    unfolding run
    run-RunsTo =
        rethrow-ends p (RunsTo t w) _ (calculate_and_store p t) w
          (λ r h. resolved _ _ h calculate_and_store-RunsTo)
          (λ e h. rejected _ _ e h calculate_and_store-RunsTo)
