-- ===== src/Shared/Filters/Unreached.antt =====
-- The manual recalculation and the filter of Prisma errors: src/modules/stock/stock.service.ts and
-- src/shared/filters/prisma-exception.filter.ts.
use layer_backend.Base.{String, none, ◌≡◌, refl, ◌<>◌, arith, List, map}
use layer_backend.Shared.Errors.{Exception, handle_exception_code}
use layer_backend.Shared.Filters.{does_not_exist, to_http_exception, filtered, at_edge}
use layer_backend.Exec.{Result, ok, err, rethrow, pure, ◌>>=◌}
use layer_backend.Platform.{Platform}
use layer_backend.World.{World, query, call}
use layer_backend.World.Ends.{rethrow-ends}
use layer_backend.Stock.Repositories.Shops.{not_found}
use layer_backend.Stock.Repositories.Catalogue.{find_with_regions}
use layer_backend.Stock.Service.{run_for_variant, recalculate_variant}
use layer_backend.Stock.Controller.{recalculate, to_response}
use layer_backend.Stock.Types.{StockRecalculationResult}

abbrev pub recalculation_error : String → String → String
recalculation_error sku variant_code =
    "[StockService]Recalculating " <> sku <> "/" <> variant_code <> " was failed"

-- `at_edge` leaves what a service has thrown as it is.
handled-at_edge :
    (e : Exception) (s : String) → at_edge (handle_exception_code e s) ≡ handle_exception_code e s
unfolding at_edge handle_exception_code
handled-at_edge (Exception.http status code message) s = refl
handled-at_edge (Exception.http_text status message) s = refl
handled-at_edge (Exception.ecom_unavailable message attempts) s = refl
handled-at_edge (Exception.prisma code message) s = refl
handled-at_edge (Exception.failure message) s = refl

module _ (p : Platform) (sku variant_code : String) where
  -- What the edge makes of a rejected recalculation.
  abbrev pub PassesEdge : {A : Type 0} → Result A × World p → Type 0
  PassesEdge (ok a, w') = Unit
  PassesEdge (err e, w') = at_edge e ≡ e

  recalculate_variant-PassesEdge :
      (w : World p) → PassesEdge (recalculate_variant p sku variant_code w)
  unfolding recalculate_variant
  recalculate_variant-PassesEdge w =
      rethrow-ends p PassesEdge _ (run_for_variant p sku variant_code) w (λ r h. tt)
        (λ e h. handled-at_edge e (recalculation_error sku variant_code))

  recalculate-PassesEdge : (w : World p) → PassesEdge (recalculate p sku variant_code w)
  unfolding recalculate
  recalculate-PassesEdge w =
      go (recalculate_variant p sku variant_code w) (recalculate_variant-PassesEdge w)
    where
      go :
          (x : Result (List StockRecalculationResult) × World p)
          → PassesEdge x
          → PassesEdge (((λ u. x) >>= λ results. pure (map to_response results)) w)
      go (ok r, v) h = tt
      go (err e, v) h = h

  -- A variant that nobody has sent.
  unknown-rejects :
      (w : World p)
      → p.fault w.tick ≡ none
      → p.product_variant.find_unique (sku, variant_code) w.db.variants ≡ none
      → (recalculate p sku variant_code w).0
        ≡ err (Exception.http 400 none (recalculation_error sku variant_code))
  unfolding recalculate recalculate_variant run_for_variant find_with_regions query call rethrow
      handle_exception_code
  unknown-rejects w calm missing = ground (arith, calm, missing)

  -- What leaves the edge for a variant that nobody has sent.
  abbrev pub Unknown : World p → Type 0
  Unknown w =
      ((recalculate p sku variant_code w).0
        ≡ err (Exception.http 400 none (recalculation_error sku variant_code)))
      × PassesEdge (recalculate p sku variant_code w)
      × (at_edge not_found ≡ does_not_exist)

  -- If a variant is unknown and its lookup does not fail, the manual recalculation rejects with a 400
  -- without a code, which the filter leaves as it is, though it would make a 404 of the error of
  -- Prisma that is behind it.
  pub recalculate-Unknown :
      (w : World p)
      → p.fault w.tick ≡ none
      → p.product_variant.find_unique (sku, variant_code) w.db.variants ≡ none
      → Unknown w
  unfolding at_edge filtered to_http_exception
  recalculate-Unknown w calm missing =
      (unknown-rejects w calm missing, recalculate-PassesEdge w, refl)
