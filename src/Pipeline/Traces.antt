-- ===== src/Pipeline/Traces.antt =====
-- What the trace of a variant shows: pipeline.service.ts.
use layer_backend.Base.{
  ap, str_eq, ◌==◌, ℕ, String, Bool, true, false, not, Option, none, some, List, map, ◌≡◌, refl,
  subst, ◌&&◌, sym, ◌⊎◌, inl, inr, if◌then◌else◌, ◌<>◌,
}
use layer_backend.Shared.Errors.{Exception, handle_exception_code}
use layer_backend.Exec.{Result, throw, or_throw, rethrow}
use layer_backend.Schema.{
  ProductVariant, RecalculationTaskStatus, EcomStockOutbox, StockRecalculationTask,
}
use layer_backend.Platform.{Platform}
use layer_backend.World.{World, Db}
use layer_backend.World.Reads.{
  Fails, ReadsTo, Reads, Reads-query, Reads-bind, Reads-pure, Reads-throw, Reads-or_throw,
  Reads-catch,
}
use layer_backend.Stock.Repositories.Tasks.{has_status}
use layer_backend.Joins.{inconsistent}
use layer_backend.Pipeline.Response.{PipelineTrace}
use layer_backend.Pipeline.Repository.{
  VariantWithStock, EventRow, has_key, newer_event, newer_row, join_variant,
  find_variant_with_stock, find_events_for_sku, find_outbox_for_sku, find_tasks_for_variant,
}
use layer_backend.Pipeline.Service.{
  recent_limit, variant_not_found, is_not_found, to_shop_line, to_calculation, to_event_dto,
  to_outbox_dto, to_blocked_dto, trace_of, read_trace, keep_not_found, get_trace,
}

module _ (p : Platform) (sku variant_code : String) where
  abbrev pub variant_row : Db p → Option ProductVariant
  variant_row db = p.product_variant.find_unique (sku, variant_code) db.variants

  -- A variant that is there, with its stocks and its results.
  abbrev pub Found : Db p → VariantWithStock → Type 0
  Found db v =
      (row : ProductVariant) × (variant_row db ≡ some row)
      × (join_variant p sku variant_code row db ≡ some v)

  -- The messages, the rows of the outbox and the tasks that a trace is read from.
  abbrev pub event_rows : Db p → List EventRow
  event_rows db = p.bc_event.find_ordered (has_key p sku) newer_event (some 25) db.events

  abbrev pub outbox_rows : Db p → List (ℕ × EcomStockOutbox)
  outbox_rows db = p.outbox.find_ordered (λ r. str_eq r.1.sku sku) newer_row (some 25) db.outbox

  abbrev pub task_rows : ℕ → Db p → List ((ℕ × ℕ) × StockRecalculationTask)
  task_rows id db =
      p.task.find_many
        (λ r. r.0.0 == id && not (has_status r.1.status RecalculationTaskStatus.done)) (λ r. 0) none
        db.tasks

  -- A trace of the variant, by what was read for it.
  abbrev pub Shows : Db p → PipelineTrace → Type 0
  Shows db r =
      (v : VariantWithStock) × Found db v
      × (r.sku ≡ v.sku)
      × (r.variant_code ≡ v.variant_code)
      × (r.shops ≡ map to_shop_line v.stocks)
      × (r.calculations ≡ map to_calculation v.ecom_stocks)
      × (r.events ≡ map (to_event_dto p) (event_rows db))
      × (r.outbox ≡ map to_outbox_dto (outbox_rows db))
      × (r.blocked ≡ map to_blocked_dto (task_rows v.id db))

  -- What the service throws for an error that it catches.
  abbrev pub reported : Exception → Exception
  reported e =
      if is_not_found e
      then e
      else handle_exception_code e
          ("[PipelineService]Reading the trace of " <> sku <> "/" <> variant_code <> " was failed")

  abbrev Breaks : Db p → Exception → Type 0
  Breaks db e =
      ((variant_row db ≡ none) × (e ≡ variant_not_found sku variant_code))
      ⊎ (Fails p e ⊎ (e ≡ inconsistent))

  -- The variant is unknown, or the error is that of a call or of a row without its relation.
  abbrev pub Rejects : Db p → Exception → Type 0
  Rejects db e =
      ((variant_row db ≡ none) × (e ≡ variant_not_found sku variant_code))
      ⊎ ((f : Exception) × (Fails p f ⊎ (f ≡ inconsistent)) × (e ≡ reported f))

  abbrev Looked : Db p → Option VariantWithStock → Type 0
  Looked db none = variant_row db ≡ none
  Looked db (some v) = Found db v

  abbrev LookedUp : Db p → Option (Option VariantWithStock) → Type 0
  LookedUp db none = Unit
  LookedUp db (some o) = Looked db o

  find_variant-Reads :
      Reads p Looked
        (λ db e. Fails p e ⊎ (e ≡ inconsistent))
        (find_variant_with_stock p sku variant_code)
  unfolding find_variant_with_stock
  find_variant-Reads =
      Reads-bind p LookedUp _ (λ db. Fails p) _ _ _
        (Reads-query p _ _ _ (λ db e h. h) (λ db. look db (variant_row db) refl)) (λ db e h. inl h)
        λ o. checked o
    where
      joined :
          (db : Db p) (row : ProductVariant) (o : Option VariantWithStock)
          → variant_row db ≡ some row
          → join_variant p sku variant_code row db ≡ o
          → LookedUp db (elim o [ none ↦ none | some v ↦ some (some v) ])
      joined db row none h e = tt
      joined db row (some v) h e = (row, h, e)

      look :
          (db : Db p) (o : Option ProductVariant)
          → variant_row db ≡ o
          → LookedUp db (elim o [
            | none ↦ some none
            | some row ↦ elim (join_variant p sku variant_code row db) [
              | none ↦ none
              | some v ↦ some (some v)
            ]
          ])
      look db none h = h
      look db (some row) h = joined db row (join_variant p sku variant_code row db) h refl

      checked :
          (o : Option (Option VariantWithStock))
          → Reads p
              (λ db v. LookedUp db o → Looked db v)
              (λ db e. LookedUp db o → Fails p e ⊎ (e ≡ inconsistent))
              (or_throw inconsistent o)
      checked o =
          Reads-or_throw p _ _ inconsistent o (λ h db k. inr refl)
            (λ v h db k. subst (LookedUp db) h k)

  events-Reads :
      Reads p
        (λ db rows. rows ≡ event_rows db)
        (λ db. Fails p)
        (find_events_for_sku p sku recent_limit)
  unfolding find_events_for_sku
  events-Reads = Reads-query p _ _ _ (λ db e h. h) (λ db. refl)

  outbox-Reads :
      Reads p
        (λ db rows. rows ≡ outbox_rows db)
        (λ db. Fails p)
        (find_outbox_for_sku p sku recent_limit)
  unfolding find_outbox_for_sku
  outbox-Reads = Reads-query p _ _ _ (λ db e h. h) (λ db. refl)

  tasks-Reads :
      (id : ℕ)
      → Reads p (λ db rows. rows ≡ task_rows id db) (λ db. Fails p) (find_tasks_for_variant p id)
  unfolding find_tasks_for_variant
  tasks-Reads id = Reads-query p _ _ _ (λ db e h. h) (λ db. refl)

  trace_of-Reads :
      (o : Option VariantWithStock)
      → Reads p
          (λ db r. Looked db o → Shows db r)
          (λ db e. Looked db o → Breaks db e)
          (trace_of p sku variant_code o)
  unfolding trace_of
  trace_of-Reads none = Reads-throw p _ _ _ (λ db h. inl (h, refl))
  trace_of-Reads (some v) =
      Reads-bind p _ _ _ _ _ _ events-Reads (λ db e h _. inr (inl h))
        λ events.
          Reads-bind p _ _ _ _ _ _ outbox-Reads (λ db e h _ _. inr (inl h))
            λ outbox.
              Reads-bind p _ _ _ _ _ _ (tasks-Reads v.id) (λ db e h _ _ _. inr (inl h))
                λ tasks. Reads-pure p _ _ _ (λ db of_tasks of_rows of_events found. (
                  v,
                  found,
                  refl,
                  refl,
                  refl,
                  refl,
                  ap (map (to_event_dto p)) of_events,
                  ap (map to_outbox_dto) of_rows,
                  ap (map to_blocked_dto) of_tasks,
                ))

  read_trace-Reads : Reads p Shows Breaks (read_trace p sku variant_code)
  unfolding read_trace
  read_trace-Reads = Reads-bind p _ _ _ _ _ _ find_variant-Reads (λ db e h. inr h) trace_of-Reads

  thrown :
      (b : Bool) (e : Exception) (s : String)
      → (if b then throw e else rethrow s (throw e))
        ≡ throw {S = World p} {A = PipelineTrace} (if b then e else handle_exception_code e s)
  unfolding rethrow
  thrown true e s = refl
  thrown false e s = refl

  break-Rejects : (db : Db p) (e : Exception) → Breaks db e → Rejects db (reported e)
  break-Rejects db e (inl (missing, same)) =
      subst (λ x. Rejects db (reported x)) (sym same) (inl (missing, refl))
  break-Rejects db e (inr why) = inr (e, why, refl)

  keep_not_found-Reads :
      (e : Exception)
      → Reads p
          (λ db r. Breaks db e → Shows db r)
          (λ db f. Breaks db e → Rejects db f)
          (keep_not_found p
            ("[PipelineService]Reading the trace of " <> sku <> "/" <> variant_code
              <> " was failed")
            e)
  unfolding keep_not_found
  keep_not_found-Reads e =
      subst (Reads p _ _) (sym (thrown (is_not_found e) e _))
        (Reads-throw p _ _ (reported e) (λ db h. break-Rejects db e h))

  get_trace-Reads : Reads p Shows Rejects (get_trace p sku variant_code)
  unfolding get_trace
  get_trace-Reads = Reads-catch p _ _ _ _ _ read_trace-Reads keep_not_found-Reads

  abbrev pub Traces : World p → Result PipelineTrace × World p → Type 0
  Traces w = ReadsTo p (Shows w.db) (Rejects w.db) w.db

  -- How reading a trace ends, by what was read for it.
  pub get_trace-ReadsTrace : (w : World p) → Traces w (get_trace p sku variant_code w)
  get_trace-ReadsTrace w = get_trace-Reads.at w
