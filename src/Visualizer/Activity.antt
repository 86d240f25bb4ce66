-- ===== src/Visualizer/Activity.antt =====
-- The log of both directions: visualizer/src/components/ActivityLog.tsx, without its markup.
pub mod Lines
use layer_backend.Base.{
  ℕ, suc, String, Bool, true, false, Option, none, some, List, [], ◌∷◌, ◌++◌, ◌<>◌, map, or_else,
  leb, str_eq, take, length, if◌then◌else◌,
}
use layer_backend.Base.Int.{ℤ, pos, negsuc, ltb_ℤ}
use layer_backend.Schema.{BcEventType, BcEventStatus, OutboxStatus}
use layer_backend.Platform.{sort_with}
use layer_backend.BcEvents.Dto.{Reported}
use layer_backend.Visualizer.{plural, format_ago}
use layer_backend.Visualizer.Types.{Place, PayloadVariant, Payload, PipelineEvent, OutboxRow}

-- One line of the log, with its time.
pub data Entry : Type 0 where
  event : PipelineEvent → Entry
  outbox : OutboxRow → Entry

abbrev pub time_of : Entry → ℕ
time_of (event e) = e.received_at
time_of (outbox row) = row.created_at

-- `new Date(b.at).getTime() - new Date(a.at).getTime()`: newest first, equal times in their order.
abbrev pub newer : Entry → Entry → Bool
newer a b = leb (time_of b) (time_of a)

-- `entries`: the eighteen newest of both directions.
unfoldable pub entries : List PipelineEvent → List OutboxRow → List Entry
entries events rows = take 18 (sort_with newer (map event events ++ map outbox rows))

pub data Colour : Type 0 where
  stop ink warn flow : Colour

-- The tone of `EventRow`, and that of `OutboxEntryRow`.
unfoldable pub event_colour : BcEventStatus → Colour
event_colour BcEventStatus.failed = stop
event_colour BcEventStatus.processed = ink
event_colour BcEventStatus.pending = warn

unfoldable pub outbox_colour : OutboxStatus → Colour
outbox_colour OutboxStatus.failed = stop
outbox_colour OutboxStatus.sent = flow
outbox_colour OutboxStatus.pending = warn

-- `join`.
unfoldable pub join : String → List String → String
join separator [] = ""
join separator (s ∷ []) = s
join separator (s ∷ t ∷ rest) = s <> separator <> join separator (t ∷ rest)

-- `a && b ? … : …` on a text that may be missing or empty.
abbrev pub with_text : (String → String) → Option String → String
with_text f none = ""
with_text f (some s) = if str_eq s "" then "" else f s

-- `variant.warehouses ?? [{ … }]`.
unfoldable pub places_of : Payload → PayloadVariant → List Place
places_of payload variant = or_else variant.warehouses (
    (record {
      warehouse_code = payload.warehouse_code;
      quantity = variant.quantity;
      quantity_delta = variant.quantity_delta;
    })
    ∷ [])

-- `String(n)` of a number, given that of a natural one.
module _ (print : ℕ → String) where
  abbrev pub print_int : ℤ → String
  print_int (pos n) = print n
  print_int (negsuc n) = "-" <> print (suc n)

  abbrev pub signed : ℤ → String
  signed d = if ltb_ℤ (pos 0) d then "+" <> print_int d else print_int d

  -- `formatNumber`: only `undefined` counts as missing.
  unfoldable pub format_number : Reported → Reported → String
  format_number (Reported.value q) d = print_int q
  format_number Reported.null d = "null"
  format_number Reported.undefined (Reported.value d) = signed d
  format_number Reported.undefined Reported.null = "null"
  format_number Reported.undefined Reported.undefined = "—"

  -- One place of a line of stock.
  unfoldable pub place_text : Option String → Place → String
  place_text variant_code place =
      or_else variant_code "—"
      <> "@"
      <> or_else place.warehouse_code "—"
      <> "→"
      <> format_number place.quantity place.quantity_delta

  -- `variants.flatMap`.
  unfoldable pub stock_places : Payload → List PayloadVariant → List String
  stock_places payload [] = []
  stock_places payload (v ∷ vs) =
      map (place_text v.variant_code) (places_of payload v) ++ stock_places payload vs

  -- `summarise`.
  unfoldable pub summarise : BcEventType → Option String → Payload → String
  summarise type key payload =
      let sku = or_else payload.sku (or_else key "—") in
      let variants = or_else payload.variants [] in
      elim type [
        | BcEventType.product ↦
            "картка "
            <> sku
            <> " · "
            <> print (length variants)
            <> " "
            <> plural (length variants) "варіант" "варіанти" "варіантів"
        | BcEventType.stock ↦
            "залишок " <> sku <> " · " <> join ", " (stock_places payload variants)
      ]

  -- The text of `EventRow`, with the error of a message that was parked.
  unfoldable pub event_text : PipelineEvent → String
  event_text e = summarise e.type e.key e.payload <> (elim e.status [
    | BcEventStatus.failed ↦ with_text (λ error. " · " <> error) e.error
    | _ ↦ ""
  ])

  abbrev queue_note : OutboxRow → String
  queue_note row = elim row.status [
    | OutboxStatus.pending ↦ " · у черзі"
    | OutboxStatus.failed ↦ with_text (λ error. " · " <> error) row.last_error
    | OutboxStatus.sent ↦ ""
  ]

  -- The text of `OutboxEntryRow`.
  unfoldable pub outbox_text : OutboxRow → String
  outbox_text row =
      "на сайт "
      <> row.sku
      <> ":"
      <> row.variant_code
      <> " · "
      <> row.region_code
      <> " → "
      <> print_int row.quantity
      <> queue_note row

  -- A row of the list: the age of the entry, its tone and its text.
  unfoldable pub row_of : (ℕ → String) → ℕ → Entry → String × (Colour × String)
  row_of format_time now (event e) = (
    format_ago print (format_time e.received_at) e.received_at now,
    (event_colour e.status, event_text e),
  )
  row_of format_time now (outbox row) = (
    format_ago print (format_time row.created_at) row.created_at now,
    (outbox_colour row.status, outbox_text row),
  )
