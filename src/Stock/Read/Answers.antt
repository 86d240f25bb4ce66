-- ===== src/Stock/Read/Answers.antt =====
-- What the read model of a SKU answers: stock.read.service.ts.
use layer_backend.Base.{String, Bool, Option, none, some, List, ◌≡◌, ◌⊎◌, length, str_eq, select}
use layer_backend.Shared.Errors.{Exception}
use layer_backend.Exec.{Result, ok, err}
use layer_backend.Schema.{Product, ProductVariant, Region, Shop, ShopStock, EcomStock}
use layer_backend.Platform.{Platform}
use layer_backend.World.{World, Db}
use layer_backend.World.Reads.{Fails, ReadsTo, Reads}
use layer_backend.Joins.{inconsistent}
use layer_backend.Joins.Rows.{All2}
use layer_backend.Stock.Repositories.Shops.{not_found}
use layer_backend.Stock.Read.Shown.{ShowsVariant}
use layer_backend.Stock.Read.{
  ProductWithStock, ProductStockResponse, to_product_response, product_not_found, to_read_error,
}

module _ (p : Platform) (sku : String) where
  abbrev pub product_row : Db p → Option Product
  product_row db = p.product.find_unique sku db.products

  -- Whether a variant is one of the SKU.
  abbrev pub of_sku : (String × String) × ProductVariant → Bool
  of_sku r = str_eq r.0.0 sku

  -- The variants of the SKU, by their codes.
  abbrev variant_rows : Db p → List ((String × String) × ProductVariant)
  variant_rows db =
      p.product_variant.find_ordered of_sku (λ a b. p.text_before a.0.1 b.0.1) none db.variants

  -- The product with all of its variants, each at the price of the product.
  abbrev pub Shows : Db p → ProductStockResponse → Type 0
  Shows db r =
      (row : Product) × (product_row db ≡ some row)
      × (r.sku ≡ sku)
      × (r.name ≡ row.name)
      × (r.brand ≡ row.brand)
      × (r.unit_measure ≡ row.unit_measure)
      × (r.price ≡ row.price)
      × (r.division ≡ row.division)
      × (r.category ≡ row.category)
      × All2 (ShowsVariant p db row.price) (variant_rows db) r.variants
      × (length r.variants ≡ length (select of_sku (p.product_variant.rows db.variants)))

  abbrev Breaks : Db p → Exception → Type 0
  Breaks db e = ((product_row db ≡ none) × (e ≡ not_found)) ⊎ (Fails p e ⊎ (e ≡ inconsistent))

  -- The SKU is unknown, or the error is that of a call or of a row without its relation.
  abbrev pub Rejects : Db p → Exception → Type 0
  Rejects db e =
      ((product_row db ≡ none) × (e ≡ product_not_found sku))
      ⊎ ((f : Exception) × (Fails p f ⊎ (f ≡ inconsistent)) × (e ≡ to_read_error sku f))

  -- What was looked up.
  abbrev Looked : Db p → Result ProductWithStock → Type 0
  Looked db (ok found) = Shows db (to_product_response found)
  Looked db (err e) = Breaks db e

  abbrev pub Answers : World p → Result ProductStockResponse × World p → Type 0
  Answers w = ReadsTo p (Shows w.db) (Rejects w.db) w.db
