-- ===== src/Stock/Quantities/Nonneg.antt =====
-- No message of Business Central leaves a negative quantity in a shop.
use layer_backend.Base.{ℕ, String, none, some, List, [], ◌∷◌, arith, or_else}
use layer_backend.Base.Int.{ℤ, pos, ◌+ℤ◌, max_zero, ◌≤ℤ◌, max_zero_nonneg}
use layer_backend.Schema.{BcEventType}
use layer_backend.Shared.Json.{Json}
use layer_backend.Platform.{Platform}
use layer_backend.Platform.Laws.{find_unique-upsert}
use layer_backend.World.{World, Db, call, execute}
use layer_backend.World.Keeps.{
  Keeps, Secures, Keeps-Secures, keeps_rules, Keeps-rethrow, secures_rules, Secures-execute_pair,
  Secures-bind,
}
use layer_backend.Frames.Tables.{ensure_exists-Keeps, ensure_for_stock-Keeps, enqueue_task-Keeps}
use layer_backend.Frames.Messages.{resolve-Keeps}
use layer_backend.Stock.Types.{StockLine, StockUpdateCommand, StockTarget}
use layer_backend.Stock.Repositories.ShopStocks.{
  set_quantity, adjust_quantity, increment_quantity, clamp_quantity,
}
use layer_backend.Stock.Apply.{write_line, apply_line, apply_lines, apply_stock, set_target}
use layer_backend.Stock.Service as Service
use layer_backend.BcEvents.Dto.{BcStockEvent}
use layer_backend.BcEvents.Inbox.{KafkaMessageMeta}
use layer_backend.BcEvents.Ingest.{apply_stock_event, ingest_stock}
use layer_backend.Frames.Ingest.{ignoring, ingest-Keeps}
use layer_backend.Frames.Runs.{run-Keeps}
use layer_backend.Stock.Quantities.Writes.{stock_row, quantity_of, adjusted}

module _ (p : Platform) where
  -- No row holds a negative quantity.
  abbrev pub IsNonneg : Db p → Type 0
  IsNonneg db = (k : ℕ × String) → pos 0 ≤ℤ quantity_of p (stock_row p db k)

  set_quantity-Keeps-IsNonneg :
      (v : ℕ) (s : String) (q : ℤ) → Keeps p IsNonneg (set_quantity p v s (max_zero q))
  unfolding set_quantity execute call
  set_quantity-Keeps-IsNonneg v s q = record {
    at = λ w h k. ground (
      arith,
      h k,
      max_zero_nonneg q,
      find_unique-upsert p.shop_stock (v, s) k
          (record { quantity = max_zero q; reported_at = p.now w.tick })
          (λ stock. record { quantity = max_zero q; reported_at = p.now w.tick }) w.db.shop_stocks,
    );
  }

  adjusted-IsNonneg :
      (v : ℕ) (s : String) (d : ℤ) (time : ℕ) (db : Db p)
      → IsNonneg db
      → IsNonneg (clamp_quantity p v s (increment_quantity p v s d time db))
  adjusted-IsNonneg v s d time db h k = ground (
    arith,
    h k,
    adjusted p v s d time db k,
    max_zero_nonneg (quantity_of p (stock_row p db k) +ℤ d),
  )

  -- Between the two statements of an adjustment a quantity may be negative: only an adjustment that
  -- resolves is known to leave none.
  adjust_quantity-Secures-IsNonneg :
      (v : ℕ) (s : String) (d : ℤ) → Secures p IsNonneg (adjust_quantity p v s d)
  unfolding adjust_quantity
  adjust_quantity-Secures-IsNonneg v s d = record {
    at = λ w h.
        (Secures-execute_pair p {P = IsNonneg} (increment_quantity p v s d (p.now w.tick))
            (clamp_quantity p v s) (λ db. adjusted-IsNonneg v s d (p.now w.tick) db)).at
          w h;
  }

  write_line-Secures-IsNonneg :
      (v : ℕ) (s : String) (l : StockLine) → Secures p IsNonneg (write_line p v s l)
  unfolding write_line
  write_line-Secures-IsNonneg v s l =
      elim l.quantity
        as (λ q. Secures p IsNonneg (elim q [
          | some n ↦ set_quantity p v s (max_zero n)
          | none ↦ adjust_quantity p v s (or_else l.quantity_delta (pos 0))
        ])) [
          | none ↦ adjust_quantity-Secures-IsNonneg v s _
          | some n ↦ Keeps-Secures p _ (set_quantity-Keeps-IsNonneg v s n)
        ]

  apply_line-Secures-IsNonneg :
      (sku : String) (l : StockLine) → Secures p IsNonneg (apply_line p sku l)
  unfolding apply_line
  apply_line-Secures-IsNonneg sku l =
      search
        (
          secures_rules, keeps_rules, ensure_for_stock-Keeps, resolve-Keeps,
          write_line-Secures-IsNonneg,
        )
        depth 8

  apply_lines-Secures-IsNonneg :
      (sku : String) (ls : List StockLine) (ts : List StockTarget)
      → Secures p IsNonneg (apply_lines p sku ls ts)
  unfolding apply_lines
  apply_lines-Secures-IsNonneg sku [] ts = search (secures_rules, keeps_rules)
  apply_lines-Secures-IsNonneg sku (l ∷ ls) ts =
      Secures-bind p _ _ (apply_line-Secures-IsNonneg sku l)
        (λ t. apply_lines-Secures-IsNonneg sku ls (set_target t ts))

  apply_stock-Secures-IsNonneg :
      (c : StockUpdateCommand) → Secures p IsNonneg (Service.apply_stock p c)
  unfolding Service.apply_stock apply_stock
  apply_stock-Secures-IsNonneg c =
      search
        (
          secures_rules, keeps_rules, ensure_exists-Keeps, apply_lines-Secures-IsNonneg,
          enqueue_task-Keeps,
        )
        depth 9

  pub apply_stock_event-Secures-IsNonneg :
      (dto : BcStockEvent) → Secures p IsNonneg (apply_stock_event p dto)
  unfolding apply_stock_event
  apply_stock_event-Secures-IsNonneg dto =
      search (secures_rules, keeps_rules, apply_stock-Secures-IsNonneg)

  -- Whatever a stock message says, and whichever calls of the database fail while it is handled, no
  -- shop holds a negative quantity afterwards if none did before.
  pub ingest_stock-IsNonneg :
      (payload : Json) (meta : KafkaMessageMeta) (w : World p)
      → IsNonneg w.db
      → IsNonneg (ingest_stock p payload meta w).1.db
  unfolding ingest_stock
  ingest_stock-IsNonneg payload meta w h =
      (Keeps-rethrow p _ _ (
          ingest-Keeps p {P = IsNonneg} (ignoring p (λ db t h. h))
            (run-Keeps p (λ db t h. h) (λ db t h. h) (λ db t h. h)) BcEventType.stock p.stock_dto
            payload meta (apply_stock_event p) apply_stock_event-Secures-IsNonneg)).at
        w h
