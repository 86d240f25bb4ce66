-- ===== src/Visualizer/Activity/Lines.antt =====
-- What the log shows of a stock message, and what the service applies of it: `summarise` of
-- visualizer/src/components/ActivityLog.tsx and toStockCommand of
-- src/modules/bc-events/bc-events.service.ts.
use layer_backend.Base.{
  ℕ, String, Bool, true, false, Option, none, some, List, [], ◌∷◌, ◌++◌, ◌<>◌, map, ◌≡◌, refl, ap,
  arith, All, sym, subst, or_else, str_eq, Bool-cases, inl, inr, if◌then◌else◌,
}
use mathlib.Core.List.{map-append}
use layer_backend.Shared.Errors.{Exception}
use layer_backend.Schema.{BcEventType}
use layer_backend.Base.Int.{ℤ}
use layer_backend.Exec.{Result, ok, err}
use layer_backend.Stock.Types.{StockLine, StockUpdateCommand}
use layer_backend.BcEvents.Dto.{Reported, BcStockWarehouse, BcStockVariant, BcStockEvent}
use layer_backend.BcEvents.Mapping.{
  present, build_line, nested_lines, nested_of, variant_lines, event_lines, to_stock_command,
  is_blank, text_or_blank, ◌>>=◌,
}
use layer_backend.Visualizer.Types.{Place, PayloadVariant, Payload}
use layer_backend.Visualizer.Activity.{
  print_int, signed, format_number, place_text, places_of, stock_places, summarise, join,
}

-- The fields of a payload that are as the decoded message has them.
abbrev pub place_of : BcStockWarehouse → Place
place_of w = record {
  warehouse_code = some w.warehouse_code;
  quantity = w.quantity;
  quantity_delta = w.quantity_delta;
}

abbrev places : Option (List BcStockWarehouse) → Option (List Place)
places none = none
places (some ws) = some (map place_of ws)

abbrev pub variant_of : BcStockVariant → PayloadVariant
variant_of v = record {
  variant_code = some v.variant_code;
  quantity = v.quantity;
  quantity_delta = v.quantity_delta;
  warehouses = places v.warehouses;
}

-- A payload that decoding has left as it was: its numbers are numbers and its codes are texts. The
-- service also accepts a payload that its decoding converts, such as a quantity that is a text.
abbrev pub literal : BcStockEvent → Payload
literal dto = record {
  sku = some dto.sku;
  warehouse_code = dto.warehouse_code;
  variants = some (map variant_of dto.variants);
}

-- A quantity is not given as `null`.
abbrev pub IsGiven : Reported → Type 0
IsGiven Reported.null = ⊥
IsGiven _ = Unit

abbrev pub IsPlain : Reported × Reported → Type 0
IsPlain (q, d) = IsGiven q × IsGiven d

-- A variant nests no empty list of warehouses, and gives none of its quantities as `null`.
abbrev pub IsRegular : BcStockVariant → Type 0
IsRegular v = elim v.warehouses [
  | none ↦ IsPlain (v.quantity, v.quantity_delta)
  | some [] ↦ ⊥
  | some (w ∷ ws) ↦ All (λ w. IsPlain (w.quantity, w.quantity_delta)) (w ∷ ws)
]

module _ (print : ℕ → String) where
  abbrev number_text : Option ℤ → Option ℤ → String
  number_text (some q) d = print_int print q
  number_text none (some d) = signed print d
  number_text none none = "—"

  -- A line as the service applies it.
  unfoldable pub line_text : StockLine → String
  line_text line =
      line.variant_code
      <> "@"
      <> line.shop_code
      <> "→"
      <> number_text line.quantity line.quantity_delta

  number-plain :
      (q d : Reported)
      → IsPlain (q, d)
      → format_number print q d ≡ number_text (present q) (present d)
  unfolding format_number
  number-plain (Reported.value q) d h = refl
  number-plain Reported.undefined (Reported.value d) h = refl
  number-plain Reported.undefined Reported.undefined h = refl
  number-plain Reported.undefined Reported.null h = absurd (h.1)
  number-plain Reported.null d h = absurd (h.0)

  -- How a mapping has ended, by the texts that the log shows.
  abbrev ShowsLines : List String → Result (List StockLine) → Type 0
  ShowsLines shown (ok lines) = shown ≡ map line_text lines
  ShowsLines shown (err e) = Unit

  abbrev ShowsLine : String → Result StockLine → Type 0
  ShowsLine shown (ok line) = shown ≡ line_text line
  ShowsLine shown (err e) = Unit

  build_line-ShowsLine :
      (sku code shop : String) (q d : Reported)
      → IsPlain (q, d)
      → ShowsLine
          (place_text print
            (some code)
            (record { warehouse_code = some shop; quantity = q; quantity_delta = d }))
          (build_line sku code shop q d)
  unfolding build_line place_text line_text
  build_line-ShowsLine sku code shop q d h = ground (arith, number-plain q d h)

  joined :
      (shown : String) (rest : List String) (r : Result StockLine) (rs : Result (List StockLine))
      → ShowsLine shown r
      → ShowsLines rest rs
      → ShowsLines
          (shown ∷ rest)
          (r >>= λ (line : StockLine). rs >>= λ (lines : List StockLine). ok (line ∷ lines))
  joined shown rest (ok line) (ok lines) h k = ground (arith, h, k)
  joined shown rest (ok line) (err e) h k = tt
  joined shown rest (err e) rs h k = tt

  nested-ShowsLines :
      (sku code : String) (ws : List BcStockWarehouse)
      → All (λ w. IsPlain (w.quantity, w.quantity_delta)) ws
      → ShowsLines (map (place_text print (some code)) (map place_of ws)) (nested_lines sku code ws)
  unfolding nested_lines
  nested-ShowsLines sku code [] h = refl
  nested-ShowsLines sku code (w ∷ ws) h =
      joined _ _ (build_line sku code w.warehouse_code w.quantity w.quantity_delta)
        (nested_lines sku code ws)
        (build_line-ShowsLine sku code w.warehouse_code w.quantity w.quantity_delta h.0)
        (nested-ShowsLines sku code ws h.1)

  only :
      (shown : String) (r : Result StockLine)
      → ShowsLine shown r
      → ShowsLines (shown ∷ []) (r >>= λ (line : StockLine). ok (line ∷ []))
  only shown (ok line) h = ap (λ s. s ∷ []) h
  only shown (err e) h = tt

  -- A variant that nests no warehouses: one line, at the warehouse of the message.
  bare-ShowsLines :
      (sku code : String) (shop : Option String) (q d : Reported) (e : Exception)
      → IsPlain (q, d)
      → ShowsLines
          (place_text print
              (some code)
              (record { warehouse_code = shop; quantity = q; quantity_delta = d })
            ∷ [])
          (if is_blank shop
            then err e
            else (build_line sku code (text_or_blank shop) q d >>= λ (line : StockLine).
                ok (line ∷ [])))
  bare-ShowsLines sku code none q d e h = tt
  bare-ShowsLines sku code (some shop) q d e h = elim (Bool-cases (str_eq shop "")) [
    | inl blank ↦ rw blank tt
    | inr given ↦
        rw given (only _ (build_line sku code shop q d) (build_line-ShowsLine sku code shop q d h))
  ]

  -- A variant that nests warehouses: one line for each, unless it has a quantity of its own.
  mixed-ShowsLines :
      (b : Bool) (shown : List String) (r : Result (List StockLine)) (e : Exception)
      → ShowsLines shown r
      → ShowsLines shown (if b then err e else r)
  mixed-ShowsLines true shown r e h = tt
  mixed-ShowsLines false shown r e h = h

  variant-ShowsLines :
      (dto : BcStockEvent) (v : BcStockVariant)
      → IsRegular v
      → ShowsLines
          (map (place_text print (some v.variant_code)) (places_of (literal dto) (variant_of v)))
          (variant_lines dto v (nested_of v))
  unfolding variant_lines places_of
  variant-ShowsLines dto v =
      elim v.warehouses
        as (λ o.
          (elim o [
            | none ↦ IsPlain (v.quantity, v.quantity_delta)
            | some [] ↦ ⊥
            | some (w ∷ ws) ↦ All (λ w. IsPlain (w.quantity, w.quantity_delta)) (w ∷ ws)
          ])
          → ShowsLines
              (map (place_text print (some v.variant_code)) (
                or_else (places o) (
                  (record {
                    warehouse_code = dto.warehouse_code;
                    quantity = v.quantity;
                    quantity_delta = v.quantity_delta;
                  })
                  ∷ [])))
              (variant_lines dto v (elim o [ none ↦ [] | some ws ↦ ws ]))) [
                | none ↦ λ h. bare-ShowsLines dto.sku v.variant_code dto.warehouse_code _ _ _ h
                | some [] ↦ λ h. absurd h
                | some (w ∷ ws) ↦ λ h.
                    mixed-ShowsLines _ _ _ _ (nested-ShowsLines dto.sku v.variant_code (w ∷ ws) h)
              ]

  appended :
      (xs ys : List String) (r rs : Result (List StockLine))
      → ShowsLines xs r
      → ShowsLines ys rs
      → ShowsLines
          (xs ++ ys)
          (r >>= λ (lines : List StockLine). rs >>= λ (rest : List StockLine). ok (lines ++ rest))
  appended xs ys (ok lines) (ok rest) h k = ground (arith, h, k, map-append line_text lines rest)
  appended xs ys (ok lines) (err e) h k = tt
  appended xs ys (err e) rs h k = tt

  event-ShowsLines :
      (dto : BcStockEvent) (vs : List BcStockVariant)
      → All IsRegular vs
      → ShowsLines (stock_places print (literal dto) (map variant_of vs)) (event_lines dto vs)
  unfolding event_lines stock_places
  event-ShowsLines dto [] h = refl
  event-ShowsLines dto (v ∷ vs) h =
      appended _ _ (variant_lines dto v (nested_of v)) (event_lines dto vs)
        (variant-ShowsLines dto v h.0) (event-ShowsLines dto vs h.1)

  -- What the log shows of a stock message that the service accepts.
  abbrev pub Shows : Payload → Result StockUpdateCommand → Type 0
  Shows payload (ok command) =
      (key : Option String)
      → summarise print BcEventType.stock key payload
        ≡ "залишок " <> command.sku <> " · " <> join ", " (map line_text command.lines)
  Shows payload (err e) = Unit

  shown :
      (dto : BcStockEvent) (r : Result (List StockLine))
      → ShowsLines (stock_places print (literal dto) (map variant_of dto.variants)) r
      → Shows
          (literal dto)
          (r >>= λ (lines : List StockLine). ok (record { sku = dto.sku; lines = lines }))
  unfolding summarise
  shown dto (ok lines) h = λ key. ap (λ l. "залишок " <> dto.sku <> " · " <> join ", " l) h
  shown dto (err e) h = tt

  -- Of a stock message that the service accepts, whose payload decoding has left as it was, in which
  -- no variant nests an empty list of warehouses and no quantity is given as `null`, the log shows
  -- exactly the lines that the service applies: each with its variant, its shop, and its quantity or
  -- its delta, in their order.
  pub to_stock_command-Shows :
      (payload : Payload) (dto : BcStockEvent)
      → payload ≡ literal dto
      → All IsRegular dto.variants
      → Shows payload (to_stock_command dto)
  unfolding to_stock_command
  to_stock_command-Shows payload dto same h =
      subst (λ x. Shows x (to_stock_command dto)) (sym same)
        (shown dto (event_lines dto dto.variants) (event-ShowsLines dto dto.variants h))
