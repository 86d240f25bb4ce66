-- ===== src/Frames/Runs.antt =====
-- The tables that the services write: the calculation, and what a message applies.
use layer_backend.Base.{ℕ, zero, suc, String, Bool, Option}
use layer_backend.Base.Int.{ℤ}
use layer_backend.Schema.{EcomStock}
use layer_backend.Shared.Errors.{Exception, message_of}
use layer_backend.Exec.{Result, ok, err, pure}
use layer_backend.Platform.{Platform}
use layer_backend.World.{Db}
use layer_backend.World.Keeps.{
  Keeps, Keeps-Secures, Keeps-transaction, Keeps-pure, Keeps-settled, keeps_rules,
}
use layer_backend.Frames.Writes.{IgnoresEcomStocks, IgnoresTasks, IgnoresOutbox}
use layer_backend.Frames.Tables.{
  find_safety_buffer-Keeps, sum_for_region-Keeps, record_unavailable-Keeps, mark_done-Keeps,
  find_current-Keeps, upsert-Keeps, enqueue_outbox-Keeps,
}
use layer_backend.Stock.Types.{StockTarget, StockCalculationResult}
use layer_backend.EcomApi.{request, attempt, get_reserved_quantity}
use layer_backend.Ecom.Service.{get_current, save_calculated, enqueue_publication, publish_soon}
use layer_backend.Stock.Recalculate.{
  carry_over, take_reserved, read_reservations, store, finish, calculate_and_store, run,
}

module _ (p : Platform) {P : Db p → Type 0} where
  request-Keeps : (t : StockTarget) → Keeps p P (request p t)
  unfolding request
  request-Keeps t = record { at = λ w h. h }

  attempt-Keeps : (n m : ℕ) (s : String) (t : StockTarget) → Keeps p P (attempt p n m s t)
  unfolding attempt
  attempt-Keeps zero m s t = search keeps_rules
  attempt-Keeps (suc n) m s t =
      Keeps-settled p _ _ (request-Keeps t) (after λ e. attempt-Keeps n m (message_of e) t)
    where
      after :
          ((e : Exception) → Keeps p P (attempt p n m (message_of e) t))
          → (r : Result ℤ)
          → Keeps p P (elim r [ ok q ↦ pure q | err e ↦ attempt p n m (message_of e) t ])
      after again (ok q) = Keeps-pure p q
      after again (err e) = again e

  get_reserved_quantity-Keeps : (t : StockTarget) → Keeps p P (get_reserved_quantity p t)
  unfolding get_reserved_quantity
  get_reserved_quantity-Keeps t = attempt-Keeps _ _ _ t

  carry_over-Keeps :
      IgnoresTasks p P
      → (t : StockTarget) (current : Option EcomStock) (e : Exception)
      → Keeps p P (carry_over p t current e)
  unfolding carry_over
  carry_over-Keeps ignores t current (Exception.ecom_unavailable m n) =
      search (keeps_rules, record_unavailable-Keeps)
  carry_over-Keeps ignores t current _ = search keeps_rules

  take_reserved-Keeps :
      IgnoresTasks p P
      → (t : StockTarget) (current : Option EcomStock) (r : Result ℤ)
      → Keeps p P (take_reserved p t current r)
  unfolding take_reserved
  take_reserved-Keeps ignores t current (ok q) = search keeps_rules
  take_reserved-Keeps ignores t current (err e) = carry_over-Keeps ignores t current e

  pub read_reservations-Keeps :
      IgnoresTasks p P
      → (t : StockTarget) (current : Option EcomStock) → Keeps p P (read_reservations p t current)
  unfolding read_reservations
  read_reservations-Keeps ignores t current =
      search (keeps_rules, get_reserved_quantity-Keeps, take_reserved-Keeps)

  pub get_current-Keeps : (v r : ℕ) → Keeps p P (get_current p v r)
  unfolding get_current
  get_current-Keeps v r = find_current-Keeps p v r

  save_calculated-Keeps :
      IgnoresEcomStocks p P
      → (t : StockTarget) (value : StockCalculationResult) (stale published : Bool)
      → Keeps p P (save_calculated p t value stale published)
  unfolding save_calculated
  save_calculated-Keeps ignores t value stale published = search (keeps_rules, upsert-Keeps)

  enqueue_publication-Keeps :
      IgnoresOutbox p P → (t : StockTarget) (q : ℤ) → Keeps p P (enqueue_publication p t q)
  unfolding enqueue_publication
  enqueue_publication-Keeps ignores t q = search (keeps_rules, enqueue_outbox-Keeps)

  publish_soon-Keeps : Keeps p P (publish_soon p)
  unfolding publish_soon
  publish_soon-Keeps = record { at = λ w h. h }

  store-Keeps :
      IgnoresEcomStocks p P
      → IgnoresOutbox p P
      → IgnoresTasks p P
      → (t : StockTarget) (value : StockCalculationResult) (stale publish : Bool)
      → Keeps p P (store p t value stale publish)
  unfolding store
  store-Keeps e o k t value stale publish =
      search (keeps_rules, save_calculated-Keeps, enqueue_publication-Keeps, mark_done-Keeps)

  pub finish-Keeps :
      IgnoresEcomStocks p P
      → IgnoresOutbox p P
      → IgnoresTasks p P
      → (t : StockTarget) (value : StockCalculationResult) (stale publish : Bool)
      → Keeps p P (finish p t value stale publish)
  unfolding finish
  finish-Keeps e o k t value stale publish =
      search (keeps_rules, Keeps-transaction, Keeps-Secures, store-Keeps, publish_soon-Keeps) depth
        9

  calculate_and_store-Keeps :
      IgnoresEcomStocks p P
      → IgnoresOutbox p P
      → IgnoresTasks p P
      → (t : StockTarget) → Keeps p P (calculate_and_store p t)
  unfolding calculate_and_store
  calculate_and_store-Keeps e o k t =
      search
        (
          keeps_rules, sum_for_region-Keeps, find_safety_buffer-Keeps, get_current-Keeps,
          read_reservations-Keeps, finish-Keeps,
        )
        depth 9

  -- A calculation writes the results, the outbox and the tasks, and nothing else.
  pub run-Keeps :
      IgnoresEcomStocks p P
      → IgnoresOutbox p P
      → IgnoresTasks p P
      → (t : StockTarget) → Keeps p P (run p t)
  unfolding run
  run-Keeps e o k t = search (keeps_rules, calculate_and_store-Keeps)
