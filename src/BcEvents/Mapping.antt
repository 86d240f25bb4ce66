-- ===== src/BcEvents/Mapping.antt =====
-- The mapping of the messages onto the commands of the stock module: the functions below the class
-- in src/modules/bc-events/bc-events.service.ts, with the codes of http-exception-code.constant.ts.
use layer_backend.Base.{
  Given, ℕ, String, Bool, true, Option, none, some, List, [], ◌∷◌, ◌++◌, ◌||◌, ◌&&◌, not, ◌<>◌, map,
  is_some, str_eq, if◌then◌else◌,
}
use layer_backend.Base.Int.{ℤ}
use layer_backend.Shared.Errors.{Exception, bad_request}
use layer_backend.Exec.{Result, ok, err}
use layer_backend.Platform.{Platform}
use layer_backend.Stock.Types.{
  ProductVariantDescriptor, SeasonCommand, ProductCatalogueCommand, StockLine, StockUpdateCommand,
}
use layer_backend.BcEvents.Dto.{
  BcSeason, BcProductHierarchy, BcProductVariant, BcProductEvent, Reported, BcStockWarehouse,
  BcStockVariant, BcStockEvent,
}

-- `HttpCodeBcEventException`.
abbrev pub line_ambiguous : ℕ
line_ambiguous = 2101

abbrev pub line_without_quantity : ℕ
line_without_quantity = 2102

abbrev pub line_without_warehouse : ℕ
line_without_warehouse = 2103

abbrev pub line_mixed_shapes : ℕ
line_mixed_shapes = 2104

-- `BadRequestException` with a message and a code.
abbrev pub refused : ℕ → String → Exception
refused code message = Exception.http bad_request (some code) message

-- The result of a function that throws at once.
infixl 10 ◌>>=◌
abbrev pub ◌>>=◌ : {A B : Type 0} → Result A → (A → Result B) → Result B
ok a >>= f = f a
err e >>= f = err e

-- `present(value) ? value : undefined`: `null` is absent.
abbrev pub present : Reported → Option ℤ
present Reported.undefined = none
present Reported.null = none
present (Reported.value n) = some n

-- `buildLine`.
unfoldable pub build_line : String → String → String → Reported → Reported → Result StockLine
build_line sku variant_code shop_code quantity quantity_delta =
    let line = "Line " <> sku <> "/" <> variant_code <> " at " <> shop_code in
    if is_some (present quantity) && is_some (present quantity_delta)
    then err (refused line_ambiguous (line <> " carries both quantity and quantityDelta"))
    else if not (is_some (present quantity)) && not (is_some (present quantity_delta))
    then err (refused line_without_quantity (line <> " carries neither quantity nor quantityDelta"))
    else ok (record {
      variant_code = variant_code;
      shop_code = shop_code;
      quantity = present quantity;
      quantity_delta = present quantity_delta;
    })

-- The loop over `warehouses[]`.
unfoldable pub nested_lines : String → String → List BcStockWarehouse → Result (List StockLine)
unfolding build_line
nested_lines sku variant_code [] = ok []
nested_lines sku variant_code (w ∷ ws) = do
  line ← build_line sku variant_code w.warehouse_code w.quantity w.quantity_delta
  rest ← nested_lines sku variant_code ws
  ok (line ∷ rest)

-- `!dto.warehouseCode`.
abbrev pub is_blank : Option String → Bool
is_blank none = true
is_blank (some code) = str_eq code ""

abbrev pub text_or_blank : Option String → String
text_or_blank none = ""
text_or_blank (some code) = code

-- `variant.warehouses ?? []`.
abbrev pub nested_of : BcStockVariant → List BcStockWarehouse
nested_of v = elim v.warehouses [ none ↦ [] | some ws ↦ ws ]

-- One round of the loop over `variants[]`, by the warehouses that the variant nests.
unfoldable pub variant_lines :
    BcStockEvent → BcStockVariant → List BcStockWarehouse → Result (List StockLine)
unfolding nested_lines
variant_lines dto v [] =
    if is_blank dto.warehouse_code
    then err (
        refused line_without_warehouse (
          "Variant " <> v.variant_code <> " of " <> dto.sku
          <> " has no warehouses and the message has no warehouseCode"))
    else do
      line ←
          build_line dto.sku v.variant_code (text_or_blank dto.warehouse_code) v.quantity
            v.quantity_delta
      ok (line ∷ [])
variant_lines dto v (w ∷ ws) =
    if is_some (present v.quantity) || is_some (present v.quantity_delta)
    then err (
        refused line_mixed_shapes (
          "Variant " <> v.variant_code <> " of " <> dto.sku
          <> " carries both warehouses[] and a bare quantity"))
    else nested_lines dto.sku v.variant_code (w ∷ ws)

-- The loop over `variants[]`.
unfoldable pub event_lines : BcStockEvent → List BcStockVariant → Result (List StockLine)
unfolding variant_lines
event_lines dto [] = ok []
event_lines dto (v ∷ vs) = do
  lines ← variant_lines dto v (nested_of v)
  rest ← event_lines dto vs
  ok (lines ++ rest)

-- `toStockCommand`.
unfoldable pub to_stock_command : BcStockEvent → Result StockUpdateCommand
unfolding event_lines
to_stock_command dto = do
  lines ← event_lines dto dto.variants
  ok (record { sku = dto.sku; lines = lines })

-- `dto.productHierarchy?.…`.
abbrev pub in_hierarchy :
    (BcProductHierarchy → Given String) → Option BcProductHierarchy → Given String
in_hierarchy f none = Given.missing
in_hierarchy f (some h) = f h

abbrev pub to_descriptor : BcProductVariant → ProductVariantDescriptor
to_descriptor v = record {
  variant_code = v.variant_code;
  barcode_no = v.barcode_no;
  color = v.color;
  size = v.size;
}

module _ (p : Platform) where
  -- `toDate`, where `new Date(null)` is the time zero.
  abbrev pub to_date : Given String → Given ℕ
  to_date Given.missing = Given.missing
  to_date Given.cleared = Given.given 0
  to_date (Given.given text) = Given.given (p.date text)

  abbrev pub to_season : Option BcSeason → Option SeasonCommand
  to_season none = none
  to_season (some s) = some (record {
    name = s.name;
    starts_at = to_date s.starting_date;
    ends_at = to_date s.ending_date;
  })

  -- `toCatalogueCommand`.
  unfoldable pub to_catalogue_command : BcProductEvent → ProductCatalogueCommand
  to_catalogue_command dto = record {
    sku = dto.sku;
    name = dto.name;
    brand = dto.brand;
    unit_measure = dto.unit_measure;
    price = dto.price;
    division = in_hierarchy (λ h. h.division) dto.product_hierarchy;
    category = in_hierarchy (λ h. h.category) dto.product_hierarchy;
    retail_product_code = in_hierarchy (λ h. h.retail_product_code) dto.product_hierarchy;
    custom_category_code = dto.custom_category_code;
    custom_category_code_description = dto.custom_category_code_description;
    season = to_season dto.season;
    variants = map to_descriptor dto.variants;
  }
