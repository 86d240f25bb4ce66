-- ===== src/Stock/Repositories/Catalogue.antt =====
-- season.repository.ts, product.repository.ts and product-variant.repository.ts.
use layer_backend.Base.{ℕ, String, Option, none, some, List, ◌==◌, map, Given}
use layer_backend.Exec.{Result, ok, err, pure, lift, or_throw, ◌>>=◌}
use layer_backend.Schema.{Product, ProductVariant, ShopStock}
use layer_backend.Platform.{Platform}
use layer_backend.World.{Db, M, query, execute, returning, new_uuid}
use layer_backend.Stock.Types.{ProductCatalogueCommand, ProductVariantDescriptor, SeasonCommand}
use layer_backend.Stock.Repositories.Shops.{not_found, resolve_code}

-- An update leaves a column alone where the new value is `undefined`.
abbrev pub kept {ℓ} : {A : Type ℓ} → Option A → Option A → Option A
kept none old = old
kept (some a) old = some a

-- A field as a new row stores it.
abbrev pub stored : {A : Type 0} → Given A → Option A
stored (Given.given a) = some a
stored _ = none

-- A field as an update of a row stores it: `undefined` leaves the column alone, `null` clears it.
abbrev pub revised : {A : Type 0} → Given A → Option A → Option A
revised Given.missing old = old
revised Given.cleared old = none
revised (Given.given a) old = some a

-- The product row of a catalogue message, and its change of a row that is there.
abbrev pub new_product : ProductCatalogueCommand → Option ℕ → Product
new_product c season_id = record {
  name = c.name;
  brand = stored c.brand;
  unit_measure = stored c.unit_measure;
  price = stored c.price;
  division = stored c.division;
  category = stored c.category;
  retail_product_code = stored c.retail_product_code;
  custom_category_code = stored c.custom_category_code;
  custom_category_code_description = stored c.custom_category_code_description;
  season_id = season_id;
}

abbrev pub revise_product : ProductCatalogueCommand → Option ℕ → Product → Product
revise_product c season_id old = record {
  name = c.name;
  brand = revised c.brand old.brand;
  unit_measure = revised c.unit_measure old.unit_measure;
  price = revised c.price old.price;
  division = revised c.division old.division;
  category = revised c.category old.category;
  retail_product_code = revised c.retail_product_code old.retail_product_code;
  custom_category_code = revised c.custom_category_code old.custom_category_code;
  custom_category_code_description =
      revised c.custom_category_code_description old.custom_category_code_description;
  season_id = kept season_id old.season_id;
}

-- The row of `ensureExists`, whose name is the SKU.
abbrev pub placeholder : String → Product
placeholder sku = record {
  name = sku;
  brand = none;
  unit_measure = none;
  price = none;
  division = none;
  category = none;
  retail_product_code = none;
  custom_category_code = none;
  custom_category_code_description = none;
  season_id = none;
}

abbrev pub revise_variant : ProductVariantDescriptor → ProductVariant → ProductVariant
revise_variant d old = record old {
  barcode_no = revised d.barcode_no old.barcode_no;
  color = revised d.color old.color;
  size = revised d.size old.size;
}

abbrev as_given : Result String → Result (Given String)
as_given (ok price) = ok (Given.given price)
as_given (err e) = err e

module _ (p : Platform) where
  -- `SeasonRepository.ensureByName`: the season's id.
  unfoldable pub ensure_by_name : SeasonCommand → M p ℕ
  ensure_by_name c = do
    id ← new_uuid p
    found ←
        returning p
          (λ db. record db {
            seasons =
                p.season.upsert c.name
                  (record { id = id; starts_at = stored c.starts_at; ends_at = stored c.ends_at })
                  (λ old. record old {
                    starts_at = revised c.starts_at old.starts_at;
                    ends_at = revised c.ends_at old.ends_at;
                  })
                  db.seasons;
          })
          (λ db. p.season.find_unique c.name db.seasons)
    season ← or_throw not_found found
    pure season.id

  -- `price` of `attributes`: `new Prisma.Decimal` unless it is `undefined`.
  abbrev pub to_price : Given String → Result (Given String)
  to_price Given.missing = ok Given.missing
  to_price Given.cleared = as_given (p.decimal none)
  to_price (Given.given text) = as_given (p.decimal (some text))

  -- `ProductRepository.upsertFromCatalogue`.
  unfoldable pub upsert_product : ProductCatalogueCommand → Option ℕ → M p (Unit {0})
  upsert_product c season_id = do
    price ← lift (to_price c.price)
    let priced = record c { price = price }
    execute p λ db. record db {
      products =
          p.product.upsert c.sku (new_product priced season_id) (revise_product priced season_id)
            db.products;
    }

  -- `ProductRepository.ensureExists`.
  unfoldable pub ensure_exists : String → M p (Unit {0})
  ensure_exists sku =
      execute p λ db. record db {
        products = p.product.upsert sku (placeholder sku) (λ old. old) db.products;
      }

  -- `ProductVariantRepository.upsertFromCatalogue`.
  unfoldable pub upsert_variant : String → ProductVariantDescriptor → M p (Unit {0})
  upsert_variant sku d = do
    id ← new_uuid p
    execute p λ db. record db {
      variants =
          p.product_variant.upsert (sku, d.variant_code)
            (record {
              id = id;
              barcode_no = stored d.barcode_no;
              color = stored d.color;
              size = stored d.size;
            })
            (revise_variant d) db.variants;
    }

  -- `ProductVariantRepository.ensureForStock`: the variant's id.
  unfoldable pub ensure_for_stock : String → String → M p ℕ
  ensure_for_stock sku variant_code = do
    id ← new_uuid p
    found ←
        returning p
          (λ db. record db {
            variants =
                p.product_variant.upsert (sku, variant_code)
                  (record { id = id; barcode_no = none; color = none; size = none }) (λ old. old)
                  db.variants;
          })
          (λ db. p.product_variant.find_unique (sku, variant_code) db.variants)
    variant ← or_throw not_found found
    pure variant.id

  -- The region of the shop that a stock row names, which is there: both are foreign keys.
  abbrev pub region_of : Db p → (ℕ × String) × ShopStock → ℕ × String
  region_of db row = elim (resolve_code p row.0.1 db) [
    | none ↦ (0, "")
    | some shop ↦ (shop.region_id, shop.region_code)
  ]

  -- `ProductVariantRepository.findWithRegions`: the variant's id, and the region of each of its
  -- stocks.
  unfoldable pub find_with_regions : String → String → M p (ℕ × List (ℕ × String))
  find_with_regions sku variant_code = do
    found ← query p λ db. elim (p.product_variant.find_unique (sku, variant_code) db.variants) [
      | none ↦ none
      | some variant ↦ some (
        variant.id,
        map (region_of db)
            (p.shop_stock.find_many (λ r. r.0.0 == variant.id) (λ r. 0) none db.shop_stocks),
      )
    ]
    or_throw not_found found
