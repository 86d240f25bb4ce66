-- ===== src/Frames/Writes.antt =====
-- Predicates on the database that do not depend on one of its tables.
use layer_backend.Platform.{Platform}
use layer_backend.World.{Db}

module _ (p : Platform) (P : Db p → Type 0) where
  abbrev pub IgnoresRegions : Type 0
  IgnoresRegions = (db : Db p) (t : p.region.Table) → P db → P (record db { regions = t })

  abbrev pub IgnoresShops : Type 0
  IgnoresShops = (db : Db p) (t : p.shop.Table) → P db → P (record db { shops = t })

  abbrev pub IgnoresSeasons : Type 0
  IgnoresSeasons = (db : Db p) (t : p.season.Table) → P db → P (record db { seasons = t })

  abbrev pub IgnoresProducts : Type 0
  IgnoresProducts = (db : Db p) (t : p.product.Table) → P db → P (record db { products = t })

  abbrev pub IgnoresVariants : Type 0
  IgnoresVariants =
      (db : Db p) (t : p.product_variant.Table) → P db → P (record db { variants = t })

  abbrev pub IgnoresShopStocks : Type 0
  IgnoresShopStocks =
      (db : Db p) (t : p.shop_stock.Table) → P db → P (record db { shop_stocks = t })

  abbrev pub IgnoresEcomStocks : Type 0
  IgnoresEcomStocks =
      (db : Db p) (t : p.ecom_stock.Table) → P db → P (record db { ecom_stocks = t })

  abbrev pub IgnoresTasks : Type 0
  IgnoresTasks = (db : Db p) (t : p.task.Table) → P db → P (record db { tasks = t })

  abbrev pub IgnoresEvents : Type 0
  IgnoresEvents = (db : Db p) (t : p.bc_event.Table) → P db → P (record db { events = t })

  abbrev pub IgnoresOutbox : Type 0
  IgnoresOutbox = (db : Db p) (t : p.outbox.Table) → P db → P (record db { outbox = t })
