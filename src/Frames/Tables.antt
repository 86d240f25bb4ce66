-- ===== src/Frames/Tables.antt =====
-- The tables that each repository method writes.
use layer_backend.Base.{ℕ, String, Bool, Option, arith}
use layer_backend.Base.Int.{ℤ}
use layer_backend.Schema.{BcEvent, BcEventType, RecalculationReason}
use layer_backend.Shared.Json.{Json}
use layer_backend.Platform.{Platform}
use layer_backend.World.{Db, call}
use layer_backend.World.Keeps.{Keeps, Keeps-execute, Keeps-returning, keeps_rules}
use layer_backend.Frames.Writes.{
  IgnoresRegions, IgnoresShops, IgnoresSeasons, IgnoresProducts, IgnoresVariants, IgnoresShopStocks,
  IgnoresEcomStocks, IgnoresTasks, IgnoresEvents, IgnoresOutbox,
}
use layer_backend.Stock.Types.{
  StockTarget, StockCalculationResult, SeasonCommand, ProductCatalogueCommand,
  ProductVariantDescriptor,
}
use layer_backend.Stock.Repositories.Shops.{
  find_by_code, find_safety_buffer, ensure_by_code, ensure_unmapped,
}
use layer_backend.Stock.Repositories.ShopStocks.{
  set_quantity, adjust_quantity, increment_quantity, clamp_quantity, sum_for_region,
}
use layer_backend.Stock.Repositories.Tasks as Tasks
use layer_backend.Stock.Repositories.Catalogue.{
  ensure_by_name, upsert_product, ensure_exists, upsert_variant, ensure_for_stock,
}
use layer_backend.Ecom.Repositories as Ecom
use layer_backend.BcEvents.Inbox.{
  KafkaMessageMeta, identity, new_event, record_event, update_event, mark_processed, mark_failed,
}

ruleset writes = (keeps_rules, Keeps-execute, Keeps-returning)

module _ (p : Platform) {P : Db p → Type 0} where
  pub find_by_code-Keeps : (code : String) → Keeps p P (find_by_code p code)
  unfolding find_by_code
  find_by_code-Keeps code = search writes

  pub find_safety_buffer-Keeps : (id : ℕ) → Keeps p P (find_safety_buffer p id)
  unfolding find_safety_buffer
  find_safety_buffer-Keeps id = search writes

  pub ensure_by_code-Keeps :
      IgnoresRegions p P → (code name : String) (b : ℤ) → Keeps p P (ensure_by_code p code name b)
  unfolding ensure_by_code
  ensure_by_code-Keeps ignores code name b = search writes

  pub ensure_unmapped-Keeps :
      IgnoresShops p P → (code : String) (id : ℕ) → Keeps p P (ensure_unmapped p code id)
  unfolding ensure_unmapped
  ensure_unmapped-Keeps ignores code id = search writes

  pub set_quantity-Keeps :
      IgnoresShopStocks p P → (v : ℕ) (s : String) (q : ℤ) → Keeps p P (set_quantity p v s q)
  unfolding set_quantity
  set_quantity-Keeps ignores v s q = search writes

  pub sum_for_region-Keeps : (v r : ℕ) → Keeps p P (sum_for_region p v r)
  unfolding sum_for_region
  sum_for_region-Keeps v r = search writes

  pub enqueue_task-Keeps :
      IgnoresTasks p P
      → (target : StockTarget) (reason : RecalculationReason)
      → Keeps p P (Tasks.enqueue p target reason)
  unfolding Tasks.enqueue
  enqueue_task-Keeps ignores target reason = search writes

  pub record_unavailable-Keeps :
      IgnoresTasks p P
      → (target : StockTarget) (error : String) (n : ℕ)
      → Keeps p P (Tasks.record_unavailable p target error n)
  unfolding Tasks.record_unavailable
  record_unavailable-Keeps ignores target error n = search writes depth 9

  pub mark_done-Keeps :
      IgnoresTasks p P → (target : StockTarget) → Keeps p P (Tasks.mark_done p target)
  unfolding Tasks.mark_done
  mark_done-Keeps ignores target = search writes

  pub find_current-Keeps : (v r : ℕ) → Keeps p P (Ecom.find_current p v r)
  unfolding Ecom.find_current
  find_current-Keeps v r = search writes

  pub upsert-Keeps :
      IgnoresEcomStocks p P
      → (target : StockTarget) (value : StockCalculationResult) (stale published : Bool)
      → Keeps p P (Ecom.upsert p target value stale published)
  unfolding Ecom.upsert
  upsert-Keeps ignores target value stale published = search writes

  pub enqueue_outbox-Keeps :
      IgnoresOutbox p P → (target : StockTarget) (q : ℤ) → Keeps p P (Ecom.enqueue p target q)
  unfolding Ecom.enqueue
  enqueue_outbox-Keeps ignores target q = search writes depth 7

  pub update_event-Keeps :
      IgnoresEvents p P
      → (meta : KafkaMessageMeta) (change : BcEvent → BcEvent)
      → Keeps p P (update_event p meta change)
  unfolding update_event
  update_event-Keeps ignores meta change = search writes

  pub mark_processed-Keeps :
      IgnoresEvents p P → (meta : KafkaMessageMeta) → Keeps p P (mark_processed p meta)
  unfolding mark_processed
  mark_processed-Keeps ignores meta = search (writes, update_event-Keeps)

  pub mark_failed-Keeps :
      IgnoresEvents p P
      → (meta : KafkaMessageMeta) (error : String) → Keeps p P (mark_failed p meta error)
  unfolding mark_failed
  mark_failed-Keeps ignores meta error = search (writes, update_event-Keeps)

  pub ensure_by_name-Keeps :
      IgnoresSeasons p P → (c : SeasonCommand) → Keeps p P (ensure_by_name p c)
  unfolding ensure_by_name
  ensure_by_name-Keeps ignores c = search writes depth 8

  pub upsert_product-Keeps :
      IgnoresProducts p P
      → (c : ProductCatalogueCommand) (id : Option ℕ) → Keeps p P (upsert_product p c id)
  unfolding upsert_product
  upsert_product-Keeps ignores c id = search writes depth 8

  pub ensure_exists-Keeps : IgnoresProducts p P → (sku : String) → Keeps p P (ensure_exists p sku)
  unfolding ensure_exists
  ensure_exists-Keeps ignores sku = search writes

  pub upsert_variant-Keeps :
      IgnoresVariants p P
      → (sku : String) (d : ProductVariantDescriptor) → Keeps p P (upsert_variant p sku d)
  unfolding upsert_variant
  upsert_variant-Keeps ignores sku d = search writes

  pub ensure_for_stock-Keeps :
      IgnoresVariants p P
      → (sku variant_code : String) → Keeps p P (ensure_for_stock p sku variant_code)
  unfolding ensure_for_stock
  ensure_for_stock-Keeps ignores sku variant_code = search writes depth 8

  pub adjust_quantity-Keeps :
      IgnoresShopStocks p P → (v : ℕ) (s : String) (d : ℤ) → Keeps p P (adjust_quantity p v s d)
  unfolding adjust_quantity increment_quantity clamp_quantity
  adjust_quantity-Keeps ignores v s d = search writes depth 8

  pub record_event-Keeps :
      IgnoresEvents p P
      → (type : BcEventType) (payload : Json) (meta : KafkaMessageMeta)
      → Keeps p P (record_event p type payload meta)
  unfolding record_event call
  record_event-Keeps ignores type payload meta = record {
    at = λ w h. ground (
      arith,
      ignores w.db
          (p.bc_event.create_new (identity meta) (new_event type payload meta (p.now w.tick))
            w.db.events).1,
    );
  }
