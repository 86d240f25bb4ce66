-- ===== src/Ecom/Repositories.antt =====
-- ecom-stock.repository.ts and ecom-stock-outbox.repository.ts.
use layer_backend.Base.{
  ℕ, suc, String, Bool, true, false, Option, none, some, List, [], ◌∷◌, ◌||◌, ◌==◌, if◌then◌else◌,
}
use layer_backend.Base.Int.{ℤ}
use layer_backend.Exec.{pure, ◌>>=◌}
use layer_backend.Schema.{EcomStock, EcomStockOutbox, OutboxStatus}
use layer_backend.Platform.{Platform, pair_of_ids}
use layer_backend.World.{M, query, execute, now, new_uuid}
use layer_backend.Stock.Types.{StockTarget, StockCalculationResult}
use layer_backend.Stock.Repositories.Tasks.{identity}

-- `ECOM_OUTBOX.BATCH_SIZE`.
abbrev pub outbox_batch_size : ℕ
outbox_batch_size = 100

-- The row that `upsert` creates, and its change of a row that is there: `publishedQuantity` and
-- `publishedAt` are written only for a number that is handed to e-com.
abbrev pub new_ecom_stock : StockCalculationResult → Bool → Bool → ℕ → EcomStock
new_ecom_stock value stale published time = record {
  quantity = value.quantity;
  shops_total = value.shops_total;
  safety_buffer = value.safety_buffer;
  reserved = value.reserved;
  reservations_stale = stale;
  published_quantity = if published then some value.quantity else none;
  calculated_at = time;
  published_at = none;
}

abbrev pub revise_ecom_stock : StockCalculationResult → Bool → Bool → ℕ → EcomStock → EcomStock
revise_ecom_stock value stale published time old = record {
  quantity = value.quantity;
  shops_total = value.shops_total;
  safety_buffer = value.safety_buffer;
  reserved = value.reserved;
  reservations_stale = stale;
  published_quantity = if published then some value.quantity else old.published_quantity;
  calculated_at = time;
  published_at = if published then none else old.published_at;
}

abbrev pub new_outbox_row : StockTarget → ℤ → ℕ → EcomStockOutbox
new_outbox_row target quantity time = record {
  sku = target.sku;
  variant_code = target.variant_code;
  variant_id = target.variant_id;
  region_id = target.region_id;
  region_code = target.region_code;
  quantity = quantity;
  status = OutboxStatus.pending;
  attempts = 0;
  last_error = none;
  created_at = time;
  sent_at = none;
}

abbrev pub is_pending : EcomStockOutbox → Bool
is_pending row = elim row.status [ OutboxStatus.pending ↦ true | _ ↦ false ]

-- `{ id: { in: ids } }`.
abbrev pub among : List ℕ → ℕ → Bool
among [] id = false
among (x ∷ xs) id = x == id || among xs id

-- `{ OR: pairs }`.
abbrev pub among_pairs : List (ℕ × ℕ) → ℕ × ℕ → Bool
among_pairs [] k = false
among_pairs (x ∷ xs) k = pair_of_ids.same x k || among_pairs xs k

abbrev pub send_row : ℕ → EcomStockOutbox → EcomStockOutbox
send_row time row = record row {
  status = OutboxStatus.sent;
  sent_at = some time;
  last_error = none;
}

abbrev pub fail_row : String → EcomStockOutbox → EcomStockOutbox
fail_row error row = record row { attempts = suc row.attempts; last_error = some error }

module _ (p : Platform) where
  -- `EcomStockRepository.findCurrent`.
  unfoldable pub find_current : ℕ → ℕ → M p (Option EcomStock)
  find_current variant_id region_id =
      query p λ db. p.ecom_stock.find_unique (variant_id, region_id) db.ecom_stocks

  -- `EcomStockRepository.upsert`.
  unfoldable pub upsert : StockTarget → StockCalculationResult → Bool → Bool → M p (Unit {0})
  upsert target value stale published = do
    time ← now p
    execute p λ db. record db {
      ecom_stocks =
          p.ecom_stock.upsert (identity target) (new_ecom_stock value stale published time)
            (revise_ecom_stock value stale published time) db.ecom_stocks;
    }

  -- `EcomStockRepository.markPublished`.
  unfoldable pub mark_published : List (ℕ × ℕ) → ℕ → M p (Unit {0})
  mark_published [] time = pure tt
  mark_published (x ∷ xs) time = execute p λ db. record db {
    ecom_stocks =
        p.ecom_stock.update_many (λ k stock. among_pairs (x ∷ xs) k)
          (λ stock. record stock { published_at = some time }) db.ecom_stocks;
  }

  -- `EcomStockRepository.countStale`.
  unfoldable pub count_stale : M p ℕ
  count_stale = query p λ db. p.ecom_stock.count (λ r. r.1.reservations_stale) db.ecom_stocks

  -- `EcomStockOutboxRepository.enqueue`.
  unfoldable pub enqueue : StockTarget → ℤ → M p (Unit {0})
  enqueue target quantity = do
    id ← new_uuid p
    time ← now p
    execute p λ db. record db {
      outbox = p.outbox.create id (new_outbox_row target quantity time) db.outbox;
    }

  -- `EcomStockOutboxRepository.findPending`: the oldest first.
  unfoldable pub find_pending : ℕ → M p (List (ℕ × EcomStockOutbox))
  find_pending n =
      query p
        λ db. p.outbox.find_many (λ r. is_pending r.1) (λ r. r.1.created_at) (some n) db.outbox

  -- `EcomStockOutboxRepository.markSent`.
  unfoldable pub mark_sent : List ℕ → ℕ → M p (Unit {0})
  mark_sent ids time = execute p λ db. record db {
    outbox = p.outbox.update_many (λ id row. among ids id) (send_row time) db.outbox;
  }

  -- `EcomStockOutboxRepository.recordFailure`.
  unfoldable pub record_failure : List ℕ → String → M p (Unit {0})
  record_failure ids error = execute p λ db. record db {
    outbox = p.outbox.update_many (λ id row. among ids id) (fail_row error) db.outbox;
  }
