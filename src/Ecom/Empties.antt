-- ===== src/Ecom/Empties.antt =====
-- Repeated drains while nothing fails: ecom.outbox-publisher.service.ts.
use layer_backend.Base.{
  String, ℕ, zero, suc, ◌≤◌, ◌<◌, Bool, true, false, ◌||◌, ◌==◌, ==_iff, none, some, List, [], ◌∷◌,
  map, length, select, take, ◌≡◌, refl, sym, ◌∙◌, arith, if◌then◌else◌, ◌⊎◌, inl, inr, ◌&&◌, All,
}
use layer_backend.Base.Rows
use layer_backend.Exec.{settled}
use layer_backend.Schema.{EcomStockOutbox}
use layer_backend.Platform.{Platform, OutgoingMessage}
use layer_backend.Platform.Queries.{All-sort_by, All-limit, length-sort_by}
use layer_backend.World.{World, query, call, execute}
use layer_backend.World.Resolves.{IsFaultless}
use layer_backend.Shared.Kafka.{publish}
use layer_backend.Ecom.Repositories.{
  is_pending, among, send_row, find_pending, mark_sent, mark_published,
}
use layer_backend.Ecom.Publisher.{
  ecom_topic, to_message, ids_of, settle, drain_batch, drain, publish_pending,
}
use layer_backend.Ecom.Drain.{batch}

abbrev Row : Type 0
Row = ℕ × EcomStockOutbox

abbrev pending_row : Row → Bool
pending_row r = is_pending r.1

-- How many rows are PENDING.
abbrev pub waiting : List Row → ℕ
waiting rows = length (select pending_row rows)

-- The rows once those of the ids are marked.
abbrev marked : List ℕ → ℕ → List Row → List Row
marked ids time = Rows.update_many (λ id row. among ids id) (send_row time)

waiting-marked :
    (ids : List ℕ) (time : ℕ) (rows : List Row) → waiting (marked ids time rows) ≤ waiting rows
unfolding Rows.update_many
waiting-marked ids time [] = omega arith
waiting-marked ids time (r ∷ rows) = ground (arith, waiting-marked ids time rows)

-- Some row of an id waits.
abbrev waits : ℕ → List Row → Bool
waits id [] = false
waits id (r ∷ rows) = (pending_row r && r.0 == id) || waits id rows

waiting-marked_hit :
    (id : ℕ) (ids : List ℕ) (time : ℕ) (rows : List Row)
    → waits id rows ≡ true
    → waiting (marked (id ∷ ids) time rows) < waiting rows
unfolding Rows.update_many
waiting-marked_hit id ids time [] h = cc
waiting-marked_hit id ids time ((i, r) ∷ rows) h = ground (
  arith,
  h,
  ==_iff id i,
  ==_iff i id,
  waiting-marked_hit id ids time rows,
  waiting-marked (id ∷ ids) time rows,
)

waits-wider :
    (r : Row) (rows rs : List Row)
    → All (λ x. waits x.0 rows ≡ true) rs
    → All (λ x. waits x.0 (r ∷ rows) ≡ true) rs
waits-wider r rows [] h = tt
waits-wider r rows (x ∷ rs) h = (ground (arith, h.0), waits-wider r rows rs h.1)

select-waits : (rows : List Row) → All (λ x. waits x.0 rows ≡ true) (select pending_row rows)
select-waits [] = tt
select-waits (r ∷ rows) =
    go (pending_row r) refl (waits-wider r rows (select pending_row rows) (select-waits rows))
  where
    go :
        (b : Bool)
        → pending_row r ≡ b
        → All (λ x. waits x.0 (r ∷ rows) ≡ true) (select pending_row rows)
        → All
            (λ x. waits x.0 (r ∷ rows) ≡ true)
            (if b then r ∷ select pending_row rows else select pending_row rows)
    go true h rest = (ground (arith, h, ==_iff r.0 r.0), rest)
    go false h rest = rest

module _ (p : Platform) where
  -- How many rows of the outbox are PENDING.
  abbrev pub backlog : World p → ℕ
  backlog w = waiting (p.outbox.rows w.db.outbox)

  batch-waits : (w : World p) → All (λ x. waits x.0 (p.outbox.rows w.db.outbox) ≡ true) (batch p w)
  batch-waits w =
      rw
        (p.outbox.find_many-rows (λ r. is_pending r.1) (λ r. r.1.created_at) (some 100) w.db.outbox)
        (All-limit _ (some 100) _
          (All-sort_by _ (λ r. r.1.created_at) _ (select-waits (p.outbox.rows w.db.outbox))))

  -- No row waits that a drain does not find.
  empty_batch : (w : World p) → batch p w ≡ [] → backlog w ≡ 0
  empty_batch w h = none_left _ (length-sort_by (λ r. r.1.created_at) rows) (
      sym
        (p.outbox.find_many-rows (λ r. is_pending r.1) (λ r. r.1.created_at) (some 100) w.db.outbox)
      ∙ h)
    where
      rows : List Row
      rows = select pending_row (p.outbox.rows w.db.outbox)

      none_left :
          (sorted : List Row) → length sorted ≡ length rows → take 100 sorted ≡ [] → length rows ≡ 0
      none_left [] e k = sym e
      none_left (r ∷ rs) e k = cc

-- Kafka takes every batch.
abbrev pub Accepts : Platform → Type 0
Accepts p =
    (n : ℕ) (topic : String) (messages : List OutgoingMessage) → p.send n topic messages ≡ none

module _ (p : Platform) (calm : IsFaultless p) (accepts : Accepts p) where
  -- The outbox once a batch is sent.
  abbrev sent_batch : List Row → ℕ → p.outbox.Table → p.outbox.Table
  sent_batch [] time t = t
  sent_batch (r ∷ rs) time t =
      p.outbox.update_many (λ id row. among (ids_of (r ∷ rs)) id) (send_row time) t

  drain_batch-outbox :
      (rows : List Row) (v : World p)
      → (drain_batch p rows v).1.db.outbox ≡ sent_batch rows (p.now (suc v.tick)) v.db.outbox
  unfolding drain_batch settled publish settle mark_sent mark_published execute call
  drain_batch-outbox [] v = refl
  drain_batch-outbox (r ∷ rs) v = ground (
    arith,
    accepts v.tick (ecom_topic p) (map to_message (r ∷ rs)),
    calm (suc v.tick),
    calm (suc (suc v.tick)),
  )

  publish_pending-outbox :
      (w : World p)
      → w.draining ≡ false
      → (publish_pending p w).1.db.outbox
        ≡ sent_batch (batch p w) (p.now (suc (suc w.tick))) w.db.outbox
  unfolding publish_pending drain find_pending query call
  publish_pending-outbox w free = ground (
    arith,
    free,
    calm w.tick,
    drain_batch-outbox (batch p w) (record w { draining = true; tick = suc w.tick }),
  )

  publish_pending-free :
      (w : World p) → w.draining ≡ false → (publish_pending p w).1.draining ≡ false
  unfolding publish_pending
  publish_pending-free w free = ground (arith, free)

  sent_batch-waiting :
      (rows : List Row) (time : ℕ) (t : p.outbox.Table)
      → All (λ x. waits x.0 (p.outbox.rows t) ≡ true) rows
      → (rows ≡ [] → waiting (p.outbox.rows t) ≡ 0)
      → (waiting (p.outbox.rows (sent_batch rows time t)) < waiting (p.outbox.rows t))
        ⊎ (waiting (p.outbox.rows (sent_batch rows time t)) ≡ 0)
  sent_batch-waiting [] time t h none_left = inr (none_left refl)
  sent_batch-waiting (r ∷ rs) time t h none_left = inl (
      rw (p.outbox.rows-update_many (λ id row. among (ids_of (r ∷ rs)) id) (send_row time) t)
        (waiting-marked_hit r.0 (ids_of rs) time (p.outbox.rows t) h.0))

  -- A drain lowers the backlog, unless it is empty.
  publish_pending-backlog :
      (w : World p)
      → w.draining ≡ false
      → (backlog p (publish_pending p w).1 < backlog p w) ⊎ (backlog p (publish_pending p w).1 ≡ 0)
  publish_pending-backlog w free =
      rw (publish_pending-outbox w free)
        (sent_batch-waiting (batch p w) _ w.db.outbox (batch-waits p w) (empty_batch p w))

-- So many drains, one after the other.
unfoldable pub drains : (p : Platform) → ℕ → World p → World p
drains p zero w = w
drains p (suc n) w = drains p n (publish_pending p w).1

module _ (p : Platform) (calm : IsFaultless p) (accepts : Accepts p) where
  drains-empty :
      (n : ℕ) (w : World p) → w.draining ≡ false → backlog p w ≤ n → backlog p (drains p n w) ≡ 0
  unfolding drains
  drains-empty zero w free few = omega (arith, few)
  drains-empty (suc n) w free few =
      drains-empty n (publish_pending p w).1 (publish_pending-free p calm accepts w free)
        (fewer (publish_pending-backlog p calm accepts w free))
    where
      fewer :
          (backlog p (publish_pending p w).1 < backlog p w)
            ⊎ (backlog p (publish_pending p w).1 ≡ 0)
          → backlog p (publish_pending p w).1 ≤ n
      fewer (inl less) = omega (arith, less, few)
      fewer (inr done) = omega (arith, done)

  -- While no call of the database fails and Kafka takes every batch, as many drains as there are
  -- PENDING rows leave none of them PENDING: every number that was queued is handed over.
  pub drains-Empties : (w : World p) → w.draining ≡ false → backlog p (drains p (backlog p w) w) ≡ 0
  drains-Empties w free = drains-empty (backlog p w) w free (omega arith)
