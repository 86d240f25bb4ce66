-- ===== src/Stock/Quantities/Regions.antt =====
-- What a reported quantity does to the sum of a region: shop-stock.repository.ts.
use layer_backend.Base.{ℕ, String, ◌&&◌, ◌≡◌, arith, if◌then◌else◌, ◌==◌}
use layer_backend.Base.Int.{ℤ, pos, ◌+ℤ◌}
use layer_backend.Exec.{Result, ok, err}
use layer_backend.Platform.{Platform}
use layer_backend.Platform.Laws.{sum-upsert}
use layer_backend.World.{World, Db, execute}
use layer_backend.Stock.Repositories.ShopStocks.{set_quantity, feeds, region_share, region_sum}
use layer_backend.Stock.Quantities.Writes.{stock_row, quantity_of}

module _ (p : Platform) where
  -- What a quantity of a variant in a shop adds to the sum of a region.
  abbrev pub portion : ℕ → ℕ → Db p → ℕ × String → ℤ → ℤ
  portion variant region db k n = if k.0 == variant && feeds p region db k.1 then n else pos 0

  abbrev pub Shifts : ℕ × String → ℤ → ℕ → ℕ → World p → Result (Unit {0}) × World p → Type 0
  Shifts k n variant region w (ok done, w') =
      region_sum p variant region w'.db
        +ℤ portion variant region w.db k (quantity_of p (stock_row p w.db k))
      ≡ region_sum p variant region w.db +ℤ portion variant region w.db k n
  Shifts k n variant region w (err e, w') =
      region_sum p variant region w'.db ≡ region_sum p variant region w.db

  -- A reported quantity moves the sum that the calculation of a variant and a region reads by the
  -- difference to the quantity that the shop held, and only if it is that variant's and the shop
  -- belongs to that region and feeds e-com; any other sum stays. If the call fails no sum moves.
  pub set_quantity-Shifts :
      (v : ℕ) (s : String) (n : ℤ) (variant region : ℕ) (w : World p)
      → Shifts (v, s) n variant region w (set_quantity p v s n w)
  unfolding set_quantity execute region_sum feeds
  set_quantity-Shifts v s n variant region w = ground (
    arith,
    sum-upsert p.shop_stock (region_share p variant region w.db) (v, s)
        (record { quantity = n; reported_at = p.now w.tick })
        (λ stock. record { quantity = n; reported_at = p.now w.tick }) w.db.shop_stocks,
  )
