-- ===== src/Joins/Rows.antt =====
-- Rows that are joined and then answered, one by one: pipeline.service.ts and stock.read.service.ts.
use layer_backend.Base.{
  ℕ, String, Option, none, some, List, [], ◌∷◌, map, ◌≡◌, refl, arith, subst, sym,
}
use layer_backend.Schema.{Region, Shop, ShopStock, EcomStock}
use layer_backend.Platform.{Platform}
use layer_backend.World.{Db}
use layer_backend.Stock.Repositories.Shops.{region_by_id}
use layer_backend.Joins.{
  JoinedShop, JoinedStock, JoinedResult, all_some, with_region, join_shop, join_stock, join_result,
}
use layer_backend.Joins.Sums.{all_some-parts}

-- Two lists are as long as each other, and their entries are related in order.
abbrev pub All2 : {A B : Type 0} → (A → B → Type 0) → List A → List B → Type 0
All2 R [] [] = Unit
All2 R (x ∷ xs) (y ∷ ys) = R x y × All2 R xs ys
All2 R _ _ = ⊥

module _ {A B C : Type 0} (R : A → C → Type 0) (f : A → Option B) (g : B → C)
    (each : (x : A) (y : B) → f x ≡ some y → R x (g y)) where
  -- Rows that are joined one by one are answered one by one.
  pub All2-all_some :
      (xs : List A) (ys : List B) → all_some (map f xs) ≡ some ys → All2 R xs (map g ys)
  All2-all_some [] [] e = tt
  All2-all_some [] (y ∷ ys) e = cc
  All2-all_some (x ∷ xs) ys e =
      let (y, zs, is_y, is_zs, is_ys) = all_some-parts (f x) (map f xs) ys e in
      subst (λ l. All2 R (x ∷ xs) (map g l)) (sym is_ys) (each x y is_y, All2-all_some xs zs is_zs)

module _ (p : Platform) (db : Db p) where
  -- A stock with its shop and the region of its shop.
  abbrev pub StockAt : (ℕ × String) × ShopStock → JoinedStock → Type 0
  StockAt ((variant_id, code), stock) j =
      (shop : Shop) × (region : String × Region) × (p.shop.find_unique code db.shops ≡ some shop)
      × (region_by_id p shop.region_id db ≡ some region)
      × (j ≡ record {
        shop = with_region p db code shop region;
        quantity = stock.quantity;
        reported_at = stock.reported_at;
      })

  pub join_stock-StockAt :
      (r : (ℕ × String) × ShopStock) (j : JoinedStock) → join_stock p db r ≡ some j → StockAt r j
  join_stock-StockAt ((variant_id, code), stock) j e = go (p.shop.find_unique code db.shops) refl e
    where
      inner :
          (shop : Shop) (o : Option (String × Region))
          → p.shop.find_unique code db.shops ≡ some shop
          → region_by_id p shop.region_id db ≡ o
          → elim (elim o as (λ x. Option JoinedShop) [
            | none ↦ none
            | some region ↦ some (with_region p db code shop region)
          ])
              as (λ x. Option JoinedStock) [
                | none ↦ none
                | some joined ↦ some (record {
                  shop = joined;
                  quantity = stock.quantity;
                  reported_at = stock.reported_at;
                })
              ]
            ≡ some j
          → StockAt ((variant_id, code), stock) j
      inner shop none h k x = cc
      inner shop (some region) h k x = (shop, region, h, k, ground (arith, x))

      go :
          (o : Option Shop)
          → p.shop.find_unique code db.shops ≡ o
          → elim o as (λ x. Option JoinedStock) [
            | none ↦ none
            | some shop ↦ elim (join_shop p db code shop) as (λ x. Option JoinedStock) [
              | none ↦ none
              | some joined ↦ some (record {
                shop = joined;
                quantity = stock.quantity;
                reported_at = stock.reported_at;
              })
            ]
          ]
            ≡ some j
          → StockAt ((variant_id, code), stock) j
      go none h x = cc
      go (some shop) h x = inner shop (region_by_id p shop.region_id db) h refl x

  -- A result with its region.
  abbrev pub ResultAt : (ℕ × ℕ) × EcomStock → JoinedResult → Type 0
  ResultAt ((variant_id, region_id), stock) j =
      (region : String × Region) × (region_by_id p region_id db ≡ some region)
      × (j ≡ record { region_code = region.0; region_name = region.1.name; stock = stock })

  pub join_result-ResultAt :
      (r : (ℕ × ℕ) × EcomStock) (j : JoinedResult) → join_result p db r ≡ some j → ResultAt r j
  join_result-ResultAt ((variant_id, region_id), stock) j e =
      go (region_by_id p region_id db) refl e
    where
      go :
          (o : Option (String × Region))
          → region_by_id p region_id db ≡ o
          → elim o as (λ x. Option JoinedResult) [
            | none ↦ none
            | some region ↦
                some (record { region_code = region.0; region_name = region.1.name; stock = stock })
          ]
            ≡ some j
          → ResultAt ((variant_id, region_id), stock) j
      go none h x = cc
      go (some region) h x = (region, h, ground (arith, x))
