-- ===== src/Joins.antt =====
-- Rows with the rows that they refer to, as `include` and `select` of the Prisma client return them:
-- the parts that pipeline.repository.ts and product.repository.ts read.
pub mod Sums
pub mod Rows
use layer_backend.Base.{ℕ, String, Bool, Option, none, some, List, [], ◌∷◌, ◌==◌, map}
use layer_backend.Base.Int.{ℤ}
use layer_backend.Shared.Errors.{Exception}
use layer_backend.Schema.{Region, Shop, Season, Product, ShopStock, EcomStock}
use layer_backend.Platform.{Platform}
use layer_backend.World.{Db}
use layer_backend.Stock.Repositories.Shops.{first, region_by_id}

-- A required relation without its row, which a foreign key rules out.
abbrev pub inconsistent : Exception
inconsistent = Exception.failure "Inconsistent query result: a required field is null."

-- All of the values, or none.
abbrev pub all_some {ℓ} : {A : Type ℓ} → List (Option A) → Option (List A)
all_some [] = some []
all_some (none ∷ xs) = none
all_some (some x ∷ xs) = elim (all_some xs) [ none ↦ none | some ys ↦ some (x ∷ ys) ]

-- A shop with its region.
pub record JoinedShop : Type 0 where
  pub code : String
  pub name : Option String
  pub included_in_ecom : Bool
  pub region_code : String
  pub region_name : String
  pub safety_buffer : ℤ

-- A stock with its shop.
pub record JoinedStock : Type 0 where
  pub shop : JoinedShop
  pub quantity : ℤ
  pub reported_at : ℕ

-- A result with its region.
pub record JoinedResult : Type 0 where
  pub region_code : String
  pub region_name : String
  pub stock : EcomStock

-- A product with its season.
pub record JoinedProduct : Type 0 where
  pub row : Product
  pub season : Option (String × Season)

module _ (p : Platform) (db : Db p) where
  abbrev pub with_region : String → Shop → String × Region → JoinedShop
  with_region code shop (bc_code, region) = record {
    code = code;
    name = shop.name;
    included_in_ecom = shop.included_in_ecom;
    region_code = bc_code;
    region_name = region.name;
    safety_buffer = region.safety_buffer;
  }

  -- `region: { select: … }` of a shop.
  abbrev pub join_shop : String → Shop → Option JoinedShop
  join_shop code shop = elim (region_by_id p shop.region_id db) [
    | none ↦ none
    | some region ↦ some (with_region code shop region)
  ]

  -- `shop: { select: … }` of a stock.
  abbrev pub join_stock : (ℕ × String) × ShopStock → Option JoinedStock
  join_stock ((variant_id, code), stock) = elim (p.shop.find_unique code db.shops) [
    | none ↦ none
    | some shop ↦ elim (join_shop code shop) [
      | none ↦ none
      | some joined ↦
          some
            (record { shop = joined; quantity = stock.quantity; reported_at = stock.reported_at })
    ]
  ]

  -- `region: { select: … }` of a result.
  abbrev pub join_result : (ℕ × ℕ) × EcomStock → Option JoinedResult
  join_result ((variant_id, region_id), stock) = elim (region_by_id p region_id db) [
    | none ↦ none
    | some (bc_code, region) ↦
        some (record { region_code = bc_code; region_name = region.name; stock = stock })
  ]

  -- The results of a variant, in the order of the table.
  unfoldable pub results_of : ℕ → Option (List JoinedResult)
  results_of variant_id = all_some (
      map join_result
        (p.ecom_stock.find_many (λ r. r.0.0 == variant_id) (λ r. 0) none db.ecom_stocks))

  -- The season of a product, which may have none.
  abbrev pub season_of : Product → Option (String × Season)
  season_of product = elim product.season_id [
    | none ↦ none
    | some id ↦ first (p.season.find_many (λ r. r.1.id == id) (λ r. 0) (some 1) db.seasons)
  ]

  -- A product with its season.
  unfoldable pub join_product : String → Option JoinedProduct
  join_product sku = elim (p.product.find_unique sku db.products) [
    | none ↦ none
    | some product ↦ some (record { row = product; season = season_of product })
  ]
