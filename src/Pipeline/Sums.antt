-- ===== src/Pipeline/Sums.antt =====
-- The stocks that a trace shows, and the sum that a calculation reads: pipeline.service.ts and
-- shop-stock.repository.ts.
use layer_backend.Base.{
  ℕ, String, Bool, true, false, Option, none, some, List, map, ◌≡◌, ap, sym, ◌∙◌, ◌&&◌, ◌==◌, arith,
  str_eq, eq_iff, ==_iff, if◌then◌else◌, select, Option-cases, inl, inr,
}
use layer_backend.Base.Int.{ℤ, pos}
use layer_backend.Exec.{Result, ok, err}
use layer_backend.Schema.{Region, ShopStock, ProductVariant}
use layer_backend.Platform.{Platform}
use layer_backend.Platform.Queries.{find_ordered-All}
use layer_backend.Platform.Sums.{sum_of, sum_of-sort, sum_of-map, sum_of-select}
use layer_backend.Joins.Sums.{sum_of-all_some}
use layer_backend.World.{World, Db}
use layer_backend.Stock.Repositories.Shops.{region_by_id}
use layer_backend.Stock.Repositories.ShopStocks.{feeds, region_share, region_sum}
use layer_backend.Joins.{JoinedStock, JoinedResult, JoinedProduct, join_stock}
use layer_backend.Pipeline.Response.{PipelineShopLine, PipelineTrace}
use layer_backend.Pipeline.Repository.{
  VariantWithStock, assemble, stocks_of, join_variant, earlier_shop,
}
use layer_backend.Pipeline.Service.{to_shop_line, get_trace}
use layer_backend.Pipeline.Traces.{variant_row, Traces, get_trace-ReadsTrace}

-- What a line adds to the sum of a region.
abbrev pub line_share : String → PipelineShopLine → ℤ
line_share code line =
    if str_eq line.region_code code && line.included_in_ecom then line.quantity else pos 0

-- The stock that a trace shows for a region, in the shops that feed e-com.
abbrev pub shown_in : String → List PipelineShopLine → ℤ
shown_in code lines = sum_of (line_share code) lines

module _ (p : Platform) where
  -- No other region has the code of this one.
  abbrev pub IsOnlyRegion : Db p → ℕ → String → Type 0
  IsOnlyRegion db id code =
      (j : ℕ) (region : Region) → region_by_id p j db ≡ some (code, region) → j ≡ id

  module _ (db : Db p) (variant_id id : ℕ) (code : String) (region : Region)
      (known : region_by_id p id db ≡ some (code, region)) (only : IsOnlyRegion db id code) where
    joined-share :
        (r : (ℕ × String) × ShopStock) (line : JoinedStock)
        → (r.0.0 == variant_id) ≡ true
        → join_stock p db r ≡ some line
        → line_share code (to_shop_line line) ≡ region_share p variant_id id db r.0 r.1
    unfolding feeds
    joined-share ((v, shop_code), stock) line own e =
        elim (Option-cases (p.shop.find_unique shop_code db.shops)) [
          | inl missing ↦ ground (arith, missing, e)
          | inr (shop, there) ↦ elim (Option-cases (region_by_id p shop.region_id db)) [
            | inl missing ↦ ground (arith, there, missing, e)
            | inr ((bc_code, place), found) ↦ ground (
              arith,
              there,
              found,
              e,
              own,
              known,
              only shop.region_id place,
              eq_iff bc_code code,
              ==_iff shop.region_id id,
            )
          ]
        ]

    abbrev own : (ℕ × String) × ShopStock → Bool
    own r = r.0.0 == variant_id

    foreign_share :
        (r : (ℕ × String) × ShopStock)
        → own r ≡ false
        → region_share p variant_id id db r.0 r.1 ≡ pos 0
    foreign_share r h = ground (arith, h)

    shares :
        sum_of
          (λ r. region_share p variant_id id db r.0 r.1)
          (p.shop_stock.find_ordered own (earlier_shop p) none db.shop_stocks)
        ≡ region_sum p variant_id id db
    unfolding region_sum
    shares =
        ap (sum_of (λ r. region_share p variant_id id db r.0 r.1))
          (p.shop_stock.find_ordered-rows own (earlier_shop p) none db.shop_stocks)
        ∙ sum_of-sort _ (earlier_shop p) (select own (p.shop_stock.rows db.shop_stocks))
        ∙ sum_of-select own (region_share p variant_id id db) (p.shop_stock.rows db.shop_stocks)
            foreign_share
        ∙ sym (p.shop_stock.sum-rows (region_share p variant_id id db) db.shop_stocks)

    stocks_of-sum :
        (stocks : List JoinedStock)
        → stocks_of p variant_id db ≡ some stocks
        → shown_in code (map to_shop_line stocks) ≡ region_sum p variant_id id db
    unfolding stocks_of
    stocks_of-sum stocks e =
        sum_of-map (line_share code) to_shop_line stocks
        ∙ sum_of-all_some own (join_stock p db) (λ r. region_share p variant_id id db r.0 r.1)
            (λ stock. line_share code (to_shop_line stock))
            (p.shop_stock.find_ordered own (earlier_shop p) none db.shop_stocks) stocks
            (find_ordered-All p.shop_stock (λ r. own r ≡ true) own (earlier_shop p) none
              db.shop_stocks (λ r h. h))
            joined-share e
        ∙ shares

  assemble-stocks :
      (sku code : String) (row : ProductVariant) (a : Option JoinedProduct)
      (b : Option (List JoinedStock)) (c : Option (List JoinedResult)) (v : VariantWithStock)
      → assemble p sku code row a b c ≡ some v
      → b ≡ some v.stocks
  assemble-stocks sku code row none b c v e = cc
  assemble-stocks sku code row (some a) none c v e = cc
  assemble-stocks sku code row (some a) (some b) none v e = cc
  assemble-stocks sku code row (some a) (some b) (some c) v e = ground (arith, e)

  join_variant-stocks :
      (sku code : String) (row : ProductVariant) (db : Db p) (v : VariantWithStock)
      → join_variant p sku code row db ≡ some v
      → stocks_of p row.id db ≡ some v.stocks
  unfolding join_variant
  join_variant-stocks sku code row db v e = assemble-stocks sku code row _ _ _ v e

  -- The trace of a variant shows for a region the sum that a calculation reads.
  abbrev pub AddsUp :
      String → String → ℕ → String → World p → Result PipelineTrace × World p → Type 0
  AddsUp sku variant_code id code w (ok r, w') =
      (row : ProductVariant) × (variant_row p sku variant_code w.db ≡ some row)
      × (shown_in code r.shops ≡ region_sum p row.id id w.db)
  AddsUp sku variant_code id code w (err e, w') = Unit

  traced :
      (sku variant_code : String) (id : ℕ) (code : String) (region : Region) (w : World p)
      → region_by_id p id w.db ≡ some (code, region)
      → IsOnlyRegion w.db id code
      → (x : Result PipelineTrace × World p) → Traces p sku variant_code w x
      → AddsUp sku variant_code id code w x
  traced sku variant_code id code region w known only (ok r, w')
        ((v, found, is_sku, is_code, shops, results, events, rows, tasks), same) =
      let (row, there, joined) = found in
      (
        row,
        there,
        ap (shown_in code) shops
            ∙ stocks_of-sum w.db row.id id code region known only v.stocks
                (join_variant-stocks sku variant_code row w.db v joined),
      )
  traced sku variant_code id code region w known only (err e, w') rejects = tt

  -- For a known region whose code no other region has, the quantities that a trace shows for that
  -- code, in the shops offered online, add up to the number that a calculation of the variant for
  -- that region reads from the same database.
  pub get_trace-AddsUp :
      (sku variant_code : String) (id : ℕ) (code : String) (region : Region) (w : World p)
      → region_by_id p id w.db ≡ some (code, region)
      → IsOnlyRegion w.db id code
      → AddsUp sku variant_code id code w (get_trace p sku variant_code w)
  get_trace-AddsUp sku variant_code id code region w known only =
      traced sku variant_code id code region w known only (get_trace p sku variant_code w)
        (get_trace-ReadsTrace p sku variant_code w)
