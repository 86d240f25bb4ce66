-- ===== src/World.antt =====
-- The state that the service works on: the database, what was sent to Kafka, and the flags of the
-- two background workers. `tick` counts the calls made, by which the platform answers.
pub mod Keeps
pub mod Ends
pub mod Resolves
pub mod Reads
use layer_backend.Base.{ℕ, suc, ◌+◌, Bool, Option, none, some, List, ◌++◌}
use layer_backend.Shared.Errors.{Exception}
use layer_backend.Exec.{Result, ok, err, Exec, pure, gets, ◌>>=◌, ◌>>◌}
use layer_backend.Platform.{Platform, OutgoingMessage}

-- The tables of prisma/schema.prisma.
pub record Db (p : Platform) : Type 0 where
  pub regions : p.region.Table
  pub shops : p.shop.Table
  pub seasons : p.season.Table
  pub products : p.product.Table
  pub variants : p.product_variant.Table
  pub shop_stocks : p.shop_stock.Table
  pub ecom_stocks : p.ecom_stock.Table
  pub tasks : p.task.Table
  pub events : p.bc_event.Table
  pub outbox : p.outbox.Table

-- `running` and `draining` are the guards of the retry worker and of the outbox drain, and
-- `scheduled` counts the drains that were started without waiting for them.
pub record World (p : Platform) : Type 0 where
  pub db : Db p
  pub tick : ℕ
  pub sent : List OutgoingMessage
  pub running : Bool
  pub draining : Bool
  pub scheduled : ℕ

abbrev pub M : Platform → Type 0 → Type 0
M p A = Exec (World p) A

module _ (p : Platform) where
  -- One call of the database: it may fail.
  unfoldable pub call : M p (Unit {0})
  call w = elim (p.fault w.tick) [
    | none ↦ (ok tt, record w { tick = suc w.tick })
    | some e ↦ (err e, record w { tick = suc w.tick })
  ]

  -- A call that reads.
  unfoldable pub query : {A : Type 0} → (Db p → A) → M p A
  unfolding call
  query read = call >> gets (λ w. read w.db)

  -- A call that writes.
  unfoldable pub execute : (Db p → Db p) → M p (Unit {0})
  unfolding call
  execute write = call >> λ w. (ok tt, record w { db = write w.db })

  -- A call that writes and returns what it wrote.
  unfoldable pub returning : {A : Type 0} → (Db p → Db p) → (Db p → A) → M p A
  unfolding call
  returning write read = call >> λ w. (ok (read (write w.db)), record w { db = write w.db })

  -- `new Date()`, and the uuid of a new row.
  abbrev pub now : M p ℕ
  now = gets λ w. p.now w.tick

  abbrev pub new_uuid : M p ℕ
  new_uuid = gets λ w. p.uuid w.tick

  -- `$transaction`: a rejection inside, or one of the commit, leaves the database as it was.
  unfoldable pub transaction : {A : Type 0} → M p A → M p A
  unfolding call
  transaction m w =
      let (r, w') = (m >>= λ a. call >> pure a) w in
      elim r [ ok a ↦ (ok a, w') | err e ↦ (err e, record w' { db = w.db }) ]
