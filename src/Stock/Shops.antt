-- ===== src/Stock/Shops.antt =====
-- A shop that Business Central has not mapped: stock.shop-resolver.service.ts.
use layer_backend.Base.{ℕ, String, Bool, false, Option, none, some, ◌≡◌, refl, arith}
use layer_backend.Platform.{Platform}
use layer_backend.Platform.Laws.{find_unique-upsert}
use layer_backend.World.{World, Db}
use layer_backend.World.Keeps.{Keeps, Keeps-returning, keeps_rules}
use layer_backend.Frames.Tables.{find_by_code-Keeps, ensure_by_code-Keeps}
use layer_backend.Stock.Types.{ResolvedShop}
use layer_backend.Stock.Repositories.Shops.{ensure_unmapped}
use layer_backend.Stock.Repositories.ShopStocks.{feeds}
use layer_backend.Stock.Apply.{create_shop, resolve}

module _ (p : Platform) where
  -- Whether a shop feeds a region has the given value.
  abbrev CountsAs : ℕ → String → Bool → Db p → Type 0
  CountsAs region code b db = feeds p region db code ≡ b

  ensured :
      (code : String) (region_id region : ℕ) (j : String) (b : Bool) (db : Db p)
      → CountsAs region j b db
      → CountsAs region j b (record db {
        shops =
            p.shop.upsert code
              (record { name = none; region_id = region_id; included_in_ecom = false })
              (λ s. s)
              db.shops;
      })
  unfolding feeds
  ensured code region_id region j b db h = ground (
    arith,
    find_unique-upsert p.shop code j
        (record { name = none; region_id = region_id; included_in_ecom = false }) (λ s. s) db.shops,
  )

  ensure_unmapped-Keeps-CountsAs :
      (code : String) (region_id region : ℕ) (j : String) (b : Bool)
      → Keeps p (CountsAs region j b) (ensure_unmapped p code region_id)
  unfolding ensure_unmapped
  ensure_unmapped-Keeps-CountsAs code region_id region j b =
      search (keeps_rules, Keeps-returning, ensured)

  create_shop-Keeps-CountsAs :
      (code : String) (found : Option ResolvedShop) (region : ℕ) (j : String) (b : Bool)
      → Keeps p (CountsAs region j b) (create_shop p code found)
  unfolding create_shop feeds
  create_shop-Keeps-CountsAs code none region j b =
      search (keeps_rules, ensure_by_code-Keeps, ensure_unmapped-Keeps-CountsAs)
  create_shop-Keeps-CountsAs code (some shop) region j b = search keeps_rules

  resolve-Keeps-CountsAs :
      (code : String) (region : ℕ) (j : String) (b : Bool)
      → Keeps p (CountsAs region j b) (resolve p code)
  unfolding resolve
  resolve-Keeps-CountsAs code region j b =
      search (keeps_rules, find_by_code-Keeps, create_shop-Keeps-CountsAs)

  -- Looking up the shop of a line, which creates a shop that is not known, changes for no shop
  -- and no region whether the stock of the shop counts there: a new shop feeds none. This holds
  -- whichever calls fail.
  pub resolve-feeds :
      (code : String) (region : ℕ) (j : String) (w : World p)
      → feeds p region (resolve p code w).1.db j ≡ feeds p region w.db j
  resolve-feeds code region j w =
      (resolve-Keeps-CountsAs code region j (feeds p region w.db j)).at w refl
