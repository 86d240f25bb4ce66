-- ===== src/Pipeline/Service.antt =====
-- pipeline.service.ts.
use layer_backend.Base.{
  ℕ, String, Bool, true, false, not, Option, none, some, List, [], ◌∷◌, ◌<>◌, ◌==◌, str_eq, map,
  if◌then◌else◌,
}
use layer_backend.Base.Int.{ℤ, int_eq}
use layer_backend.Shared.Errors.{Exception}
use layer_backend.Exec.{pure, throw, rethrow, catch, ◌>>=◌}
use layer_backend.Schema.{StockRecalculationTask, EcomStockOutbox}
use layer_backend.Platform.{Platform}
use layer_backend.World.{M}
use layer_backend.Joins.{JoinedShop, JoinedStock, JoinedResult}
use layer_backend.Pipeline.Response.{
  PipelineShopLine, PipelineCalculation, PipelineEvent, PipelineOutbox, PipelineBlocked,
  PipelineTrace, PipelineVariantRef, PipelineShopRef, PipelineStand, PipelineActivity,
}
use layer_backend.Pipeline.Repository.{
  VariantWithStock, KnownVariant, EventRow, find_variant_with_stock, find_events_for_sku,
  find_recent_events, find_outbox_for_sku, find_recent_outbox, find_tasks_for_variant,
  find_known_variants, find_shops,
}

-- `RECENT_LIMIT`.
abbrev pub recent_limit : ℕ
recent_limit = 25

-- `filter(Boolean)` of texts: `null` and the empty text are dropped.
abbrev pub truthy_texts : List (Option String) → List String
truthy_texts [] = []
truthy_texts (none ∷ xs) = truthy_texts xs
truthy_texts (some s ∷ xs) = let rest = truthy_texts xs in if str_eq s "" then rest else s ∷ rest

-- `join`.
abbrev pub join_texts : String → List String → String
join_texts separator [] = ""
join_texts separator (s ∷ []) = s
join_texts separator (s ∷ t ∷ ts) = s <> separator <> join_texts separator (t ∷ ts)

-- `describeVariant`.
unfoldable pub describe_variant : Option String → Option String → Option String
describe_variant color size =
    let text = join_texts " · " (truthy_texts (color ∷ size ∷ [])) in
    if str_eq text "" then none else some text

-- `toOutboxDto`.
abbrev pub to_outbox_dto : ℕ × EcomStockOutbox → PipelineOutbox
to_outbox_dto (id, row) = record {
  sku = row.sku;
  variant_code = row.variant_code;
  region_code = row.region_code;
  quantity = row.quantity;
  status = row.status;
  attempts = row.attempts;
  last_error = row.last_error;
  created_at = row.created_at;
  sent_at = row.sent_at;
}

-- `toBlockedDto`.
abbrev pub to_blocked_dto : (ℕ × ℕ) × StockRecalculationTask → PipelineBlocked
to_blocked_dto (k, task) = record {
  region_code = task.region_code;
  status = task.status;
  reason = task.reason;
  attempts = task.attempts;
  last_error = task.last_error;
  last_tried_at = task.last_tried_at;
}

-- `publishedQuantity === null || publishedQuantity !== quantity`.
abbrev pub is_withheld : Option ℤ → ℤ → Bool
is_withheld none quantity = true
is_withheld (some published) quantity = not (int_eq published quantity)

-- The entries of `readTrace`.
abbrev pub to_shop_line : JoinedStock → PipelineShopLine
to_shop_line stock = record {
  shop_code = stock.shop.code;
  shop_name = stock.shop.name;
  region_code = stock.shop.region_code;
  quantity = stock.quantity;
  included_in_ecom = stock.shop.included_in_ecom;
  reported_at = stock.reported_at;
}

abbrev pub to_calculation : JoinedResult → PipelineCalculation
to_calculation ecom = record {
  region_code = ecom.region_code;
  region_name = ecom.region_name;
  shops_total = ecom.stock.shops_total;
  safety_buffer = ecom.stock.safety_buffer;
  reserved = ecom.stock.reserved;
  quantity = ecom.stock.quantity;
  published_quantity = ecom.stock.published_quantity;
  reservations_stale = ecom.stock.reservations_stale;
  withheld = is_withheld ecom.stock.published_quantity ecom.stock.quantity;
  calculated_at = ecom.stock.calculated_at;
  published_at = ecom.stock.published_at;
}

-- The entries of `readStand`.
abbrev pub to_shop_ref : JoinedShop → PipelineShopRef
to_shop_ref shop = record {
  code = shop.code;
  name = shop.name;
  region_code = shop.region_code;
  region_name = shop.region_name;
  safety_buffer = shop.safety_buffer;
  included_in_ecom = shop.included_in_ecom;
}

abbrev pub to_variant_ref : KnownVariant → PipelineVariantRef
to_variant_ref variant = record {
  sku = variant.sku;
  variant_code = variant.variant_code;
  name = variant.name;
  descriptor = describe_variant variant.color variant.size;
}

-- `NotFoundException` of `readTrace`, with `PIPELINE_VARIANT_NOT_FOUND`.
abbrev pub variant_not_found : String → String → Exception
variant_not_found sku variant_code =
    Exception.http 404 (some 2301)
      ("Business Central has not sent anything about " <> sku <> "/" <> variant_code <> " yet")

-- `error instanceof NotFoundException`.
abbrev pub is_not_found : Exception → Bool
is_not_found (Exception.http status code message) = status == 404
is_not_found (Exception.http_text status message) = status == 404
is_not_found _ = false

module _ (p : Platform) where
  -- `toEventDto`.
  abbrev pub to_event_dto : EventRow → PipelineEvent
  to_event_dto ((topic, (partition, offset)), event) = record {
    type = event.type;
    status = event.status;
    topic = topic;
    partition = partition;
    offset = p.print offset;
    key = event.key;
    payload = event.payload;
    received_at = event.received_at;
    processed_at = event.processed_at;
    error = event.error;
  }

  -- `readStand`.
  unfoldable pub read_stand : M p PipelineStand
  read_stand = do
    shops ← find_shops p
    variants ← find_known_variants p 50
    pure (record { shops = map to_shop_ref shops; variants = map to_variant_ref variants })

  -- `getStand`.
  unfoldable pub get_stand : M p PipelineStand
  get_stand = rethrow "[PipelineService]Reading the stand was failed" read_stand

  -- What `readTrace` returns.
  abbrev pub to_trace :
      VariantWithStock
      → List PipelineEvent
      → List PipelineOutbox
      → List PipelineBlocked
      → PipelineTrace
  to_trace variant events outbox blocked = record {
    sku = variant.sku;
    variant_code = variant.variant_code;
    name = variant.product.row.name;
    descriptor = describe_variant variant.color variant.size;
    unit_measure = variant.product.row.unit_measure;
    season_name = elim variant.product.season [ none ↦ none | some (name, season) ↦ some name ];
    shops = map to_shop_line variant.stocks;
    calculations = map to_calculation variant.ecom_stocks;
    events = events;
    outbox = outbox;
    blocked = blocked;
  }

  -- `readTrace` once the variant is looked up.
  unfoldable pub trace_of : String → String → Option VariantWithStock → M p PipelineTrace
  trace_of sku variant_code none = throw (variant_not_found sku variant_code)
  trace_of sku variant_code (some variant) = do
    events ← find_events_for_sku p sku recent_limit
    outbox ← find_outbox_for_sku p sku recent_limit
    blocked ← find_tasks_for_variant p variant.id
    pure (
        to_trace variant (map to_event_dto events) (map to_outbox_dto outbox)
          (map to_blocked_dto blocked))

  -- `readTrace`.
  unfoldable pub read_trace : String → String → M p PipelineTrace
  read_trace sku variant_code =
      find_variant_with_stock p sku variant_code >>= trace_of sku variant_code

  -- The `catch` of `getTrace`: a missing variant stays a 404.
  unfoldable pub keep_not_found : String → Exception → M p PipelineTrace
  keep_not_found error_message e =
      if is_not_found e then throw e else rethrow error_message (throw e)

  -- `getTrace`.
  unfoldable pub get_trace : String → String → M p PipelineTrace
  get_trace sku variant_code = catch (read_trace sku variant_code) (
      keep_not_found
        ("[PipelineService]Reading the trace of " <> sku <> "/" <> variant_code <> " was failed"))

  -- `readActivity`.
  unfoldable pub read_activity : M p PipelineActivity
  read_activity = do
    events ← find_recent_events p recent_limit
    outbox ← find_recent_outbox p recent_limit
    pure (record { events = map to_event_dto events; outbox = map to_outbox_dto outbox })

  -- `getActivity`.
  unfoldable pub get_activity : M p PipelineActivity
  get_activity = rethrow "[PipelineService]Reading recent activity was failed" read_activity
