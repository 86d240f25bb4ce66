-- ===== src/Stock/Results/Resolves.antt =====
-- A calculation resolves when the database does: stock.recalculate.service.ts.
use layer_backend.Base.{ℕ, suc, String, Bool, true, false, Option, ◌≡◌, refl, arith, is_some}
use layer_backend.Base.Int.{ℤ}
use layer_backend.Shared.Errors.{Exception}
use layer_backend.Exec.{Result, ok, err, is_err, rethrow, settled}
use layer_backend.Schema.{EcomStock}
use layer_backend.Platform.{Platform}
use layer_backend.Platform.Laws.{find_unique-upsert_self}
use layer_backend.World.{World, Db, M, query, execute, returning, transaction}
use layer_backend.World.Keeps.{Keeps, keeps_rules}
use layer_backend.World.Resolves.{
  IsFaultless, Resolves, Resolves-query, Resolves-bind, Resolves-rethrow,
}
use layer_backend.Frames.Tables.{find_safety_buffer-Keeps}
use layer_backend.Frames.Runs.{read_reservations-Keeps}
use layer_backend.Stock.Types.{StockTarget, StockCalculationResult, max_attempts}
use layer_backend.Stock.Repositories.Shops.{find_safety_buffer, region_by_id}
use layer_backend.Stock.Repositories.ShopStocks.{sum_for_region}
use layer_backend.Stock.Repositories.Tasks.{
  identity, new_failure, count_failure, record_unavailable, mark_done,
}
use layer_backend.EcomApi.{get_reserved_quantity}
use layer_backend.EcomApi.Retry.{Answers, get_reserved_quantity-Answers, is_unavailable}
use layer_backend.Ecom.Repositories.{upsert, enqueue, find_current}
use layer_backend.Ecom.Service.{get_current, save_calculated, enqueue_publication, publish_soon}
use layer_backend.Stock.Recalculate.{
  carry_over, take_reserved, read_reservations, store, finish, calculate_and_store, run,
}

module _ (p : Platform) where
  -- There is a region with an id.
  abbrev pub HasRegion : ℕ → Db p → Type 0
  HasRegion id db = is_some (region_by_id p id db) ≡ true

module _ (p : Platform) (calm : IsFaultless p) where
  abbrev Fine : {A : Type 0} → M p A → World p → Type 0
  Fine m w = is_err (m w).0 ≡ false

  find_safety_buffer-Fine :
      (id : ℕ) (w : World p) → HasRegion p id w.db → Fine (find_safety_buffer p id) w
  unfolding find_safety_buffer query
  find_safety_buffer-Fine id w h = ground (arith, calm w.tick)

  record_unavailable-Fine :
      (t : StockTarget) (error : String) (max : ℕ) (w : World p)
      → Fine (record_unavailable p t error max) w
  unfolding record_unavailable returning execute
  record_unavailable-Fine t error max w = ground (
    arith,
    calm w.tick,
    calm (suc w.tick),
    find_unique-upsert_self p.task (identity t) (new_failure t error (p.now w.tick))
        (count_failure error (p.now w.tick)) w.db.tasks,
  )

  carry_over-Fine :
      (t : StockTarget) (current : Option EcomStock) (e : Exception) (w : World p)
      → is_unavailable e ≡ true
      → Fine (carry_over p t current e) w
  unfolding carry_over
  carry_over-Fine t current (Exception.ecom_unavailable m n) w h =
      ground (arith, record_unavailable-Fine t m max_attempts w)
  carry_over-Fine t current e w h = ground arith

  read_reservations-Fine :
      (t : StockTarget) (current : Option EcomStock) (w : World p)
      → Fine (read_reservations p t current) w
  unfolding read_reservations take_reserved settled
  read_reservations-Fine t current w =
      go (get_reserved_quantity p t w) (get_reserved_quantity-Answers p t w)
    where
      go :
          (x : Result ℤ × World p)
          → Answers p t w x
          → is_err (take_reserved p t current x.0 x.1).0 ≡ false
      go (ok n, u) h = refl
      go (err e, u) (h, first, second, third, same) = carry_over-Fine t current e u h

  finish-Fine :
      (t : StockTarget) (value : StockCalculationResult) (stale publish : Bool) (w : World p)
      → Fine (finish p t value stale publish) w
  unfolding finish store transaction save_calculated enqueue_publication publish_soon upsert enqueue
      mark_done execute rethrow
  finish-Fine t value true true w =
      ground (arith, calm w.tick, calm (suc w.tick), calm (suc (suc w.tick)))
  finish-Fine t value true false w = ground (arith, calm w.tick, calm (suc w.tick))
  finish-Fine t value false true w = ground (
    arith,
    calm w.tick,
    calm (suc w.tick),
    calm (suc (suc w.tick)),
    calm (suc (suc (suc w.tick))),
  )
  finish-Fine t value false false w =
      ground (arith, calm w.tick, calm (suc w.tick), calm (suc (suc w.tick)))

  module _ (t : StockTarget) where
    find_safety_buffer-Resolves :
        Resolves p (HasRegion p t.region_id) (find_safety_buffer p t.region_id)
    find_safety_buffer-Resolves = record { at = find_safety_buffer-Fine t.region_id }

    read_reservations-Resolves :
        (current : Option EcomStock)
        → Resolves p (HasRegion p t.region_id) (read_reservations p t current)
    read_reservations-Resolves current = record { at = λ w h. read_reservations-Fine t current w }

    finish-Resolves :
        (value : StockCalculationResult) (stale publish : Bool)
        → Resolves p (HasRegion p t.region_id) (finish p t value stale publish)
    finish-Resolves value stale publish = record { at = λ w h. finish-Fine t value stale publish w }

    kept_reading :
        (current : Option EcomStock)
        → Keeps p (HasRegion p t.region_id) (read_reservations p t current)
    unfolding region_by_id
    kept_reading current = read_reservations-Keeps p (λ db x h. h) t current

    calculate_and_store-Resolves : Resolves p (HasRegion p t.region_id) (calculate_and_store p t)
    unfolding calculate_and_store sum_for_region get_current find_current
    calculate_and_store-Resolves =
        search
          (
            keeps_rules, Resolves-bind, Resolves-query, find_safety_buffer-Resolves,
            find_safety_buffer-Keeps, read_reservations-Resolves, kept_reading, finish-Resolves,
            calm,
          )
          depth 9

  -- When no call of the database fails and the region of the pair is known, a calculation resolves,
  -- whatever e-com answers.
  pub run-Resolves :
      (t : StockTarget) (w : World p) → HasRegion p t.region_id w.db → is_err (run p t w).0 ≡ false
  unfolding run
  run-Resolves t w h = (Resolves-rethrow p _ _ (calculate_and_store-Resolves t)).at w h
