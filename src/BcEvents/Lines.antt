-- ===== src/BcEvents/Lines.antt =====
-- The lines that a stock message is mapped to: bc-events.service.ts.
use mathlib.Core.List.{map-append}
use layer_backend.Base.{
  ◌≤◌, String, Bool, true, false, not, ◌&&◌, ◌||◌, some, List, [], ◌∷◌, ◌++◌, map, ◌≡◌, refl, sym,
  arith, is_some, if◌then◌else◌,
}
use layer_backend.Shared.Errors.{Exception, bad_request}
use layer_backend.Exec.{Result, ok, err}
use layer_backend.Stock.Types.{StockLine, StockUpdateCommand}
use layer_backend.BcEvents.Dto.{Reported, BcStockWarehouse, BcStockVariant, BcStockEvent}
use layer_backend.BcEvents.Mapping.{
  line_ambiguous, line_mixed_shapes, present, build_line, nested_lines, nested_of, variant_lines,
  event_lines, to_stock_command, is_blank, text_or_blank, ◌>>=◌,
}

-- A refusal is a 400 with one of the four codes of the messages of Business Central.
abbrev pub IsRefusal : Exception → Type 0
IsRefusal (Exception.http status (some code) message) =
    (status ≡ bad_request) × (line_ambiguous ≤ code) × (code ≤ line_mixed_shapes)
IsRefusal _ = ⊥

-- What a message says of one variant at one warehouse: the codes, `quantity` and `quantityDelta`.
abbrev Said : Type 0
Said = String × String × Reported × Reported

abbrev line_of : Said → StockLine
line_of (variant_code, warehouse_code, quantity, delta) = record {
  variant_code = variant_code;
  shop_code = warehouse_code;
  quantity = present quantity;
  quantity_delta = present delta;
}

-- Exactly one of the two quantities is given, where `null` is not given.
abbrev is_exclusive : Said → Bool
is_exclusive (variant_code, warehouse_code, quantity, delta) =
    if is_some (present quantity) then not (is_some (present delta)) else is_some (present delta)

abbrev all_exclusive : List Said → Bool
all_exclusive [] = true
all_exclusive (s ∷ ss) = is_exclusive s && all_exclusive ss

-- What a message says of a variant: at each warehouse that the variant nests, or at the warehouse
-- of the message if it nests none.
abbrev said_at : String → BcStockWarehouse → Said
said_at variant_code w = (variant_code, w.warehouse_code, w.quantity, w.quantity_delta)

abbrev said_of : BcStockEvent → BcStockVariant → List BcStockWarehouse → List Said
said_of dto v [] =
    (v.variant_code, text_or_blank dto.warehouse_code, v.quantity, v.quantity_delta) ∷ []
said_of dto v (w ∷ ws) = map (said_at v.variant_code) (w ∷ ws)

abbrev said_in : BcStockEvent → List BcStockVariant → List Said
said_in dto [] = []
said_in dto (v ∷ vs) = said_of dto v (nested_of v) ++ said_in dto vs

-- A variant that nests warehouses has no quantity of its own; for one that nests none the message
-- has a warehouse.
abbrev is_shaped : BcStockEvent → BcStockVariant → List BcStockWarehouse → Bool
is_shaped dto v [] = not (is_blank dto.warehouse_code)
is_shaped dto v (w ∷ ws) = not (is_some (present v.quantity) || is_some (present v.quantity_delta))

abbrev is_acceptable : BcStockEvent → List BcStockVariant → Bool
is_acceptable dto [] = true
is_acceptable dto (v ∷ vs) =
    (is_shaped dto v (nested_of v) && all_exclusive (said_of dto v (nested_of v)))
    && is_acceptable dto vs

-- The lines are those that are said, if all is acceptable, and else there is a refusal.
abbrev Built : Bool → List Said → Result (List StockLine) → Type 0
Built acceptable said (ok lines) = (acceptable ≡ true) × (lines ≡ map line_of said)
Built acceptable said (err e) = (acceptable ≡ false) × IsRefusal e

abbrev BuiltLine : Said → Result StockLine → Type 0
BuiltLine said (ok line) = (is_exclusive said ≡ true) × (line ≡ line_of said)
BuiltLine said (err e) = (is_exclusive said ≡ false) × IsRefusal e

build_line-Built :
    (sku variant_code shop_code : String) (quantity delta : Reported)
    → BuiltLine
        (variant_code, shop_code, quantity, delta)
        (build_line sku variant_code shop_code quantity delta)
unfolding build_line
build_line-Built sku variant_code shop_code Reported.undefined Reported.undefined = ground arith
build_line-Built sku variant_code shop_code Reported.undefined Reported.null = ground arith
build_line-Built sku variant_code shop_code Reported.undefined (Reported.value m) = (refl, refl)
build_line-Built sku variant_code shop_code Reported.null Reported.undefined = ground arith
build_line-Built sku variant_code shop_code Reported.null Reported.null = ground arith
build_line-Built sku variant_code shop_code Reported.null (Reported.value m) = (refl, refl)
build_line-Built sku variant_code shop_code (Reported.value n) Reported.undefined = (refl, refl)
build_line-Built sku variant_code shop_code (Reported.value n) Reported.null = (refl, refl)
build_line-Built sku variant_code shop_code (Reported.value n) (Reported.value m) = ground arith

nested_lines-Built :
    (sku variant_code : String) (ws : List BcStockWarehouse)
    → Built
        (all_exclusive (map (said_at variant_code) ws))
        (map (said_at variant_code) ws)
        (nested_lines sku variant_code ws)
unfolding nested_lines
nested_lines-Built sku variant_code [] = (refl, refl)
nested_lines-Built sku variant_code (w ∷ ws) = ground (
  arith,
  build_line-Built sku variant_code w.warehouse_code w.quantity w.quantity_delta,
  nested_lines-Built sku variant_code ws,
)

variant_lines-Built :
    (dto : BcStockEvent) (v : BcStockVariant) (ws : List BcStockWarehouse)
    → Built
        (is_shaped dto v ws && all_exclusive (said_of dto v ws))
        (said_of dto v ws)
        (variant_lines dto v ws)
unfolding variant_lines
variant_lines-Built dto v [] = ground (
  arith,
  build_line-Built dto.sku v.variant_code (text_or_blank dto.warehouse_code) v.quantity
      v.quantity_delta,
)
variant_lines-Built dto v (w ∷ ws) =
    ground (arith, nested_lines-Built dto.sku v.variant_code (w ∷ ws))

event_lines-Built :
    (dto : BcStockEvent) (vs : List BcStockVariant)
    → Built (is_acceptable dto vs) (said_in dto vs) (event_lines dto vs)
unfolding event_lines
event_lines-Built dto [] = (refl, refl)
event_lines-Built dto (v ∷ vs) =
    go (is_shaped dto v (nested_of v) && all_exclusive here) (is_acceptable dto vs)
      (variant_lines dto v (nested_of v)) (event_lines dto vs)
      (variant_lines-Built dto v (nested_of v)) (event_lines-Built dto vs)
  where
    here : List Said
    here = said_of dto v (nested_of v)

    go :
        (first rest : Bool) (x y : Result (List StockLine))
        → Built first here x
        → Built rest (said_in dto vs) y
        → Built (first && rest) (here ++ said_in dto vs) (x >>= λ a. y >>= λ b. ok (a ++ b))
    go first rest (ok a) (ok b) (fa, la) (fb, lb) =
        (ground (arith, fa, fb), rw (la, lb) (sym (map-append line_of here (said_in dto vs))))
    go first rest (ok a) (err e) (fa, la) (fe, he) = (ground (arith, fa, fe), he)
    go first rest (err e) y (fe, he) hy = (ground (arith, fe), he)

-- What `toStockCommand` makes of a message.
abbrev pub Maps : BcStockEvent → Result StockUpdateCommand → Type 0
Maps dto (ok command) =
    (is_acceptable dto dto.variants ≡ true)
    × (command.sku ≡ dto.sku)
    × (command.lines ≡ map line_of (said_in dto dto.variants))
Maps dto (err e) = (is_acceptable dto dto.variants ≡ false) × IsRefusal e

-- A stock message is accepted exactly if every variant that nests no warehouse is in a message that
-- names one, every variant that nests some has no quantity of its own, and exactly one of `quantity`
-- and `quantityDelta` is given for each line. Then its command is for its product and has, in the
-- order of the message, one line for each warehouse that a variant nests and one at the warehouse of
-- the message for a variant that nests none, each with the quantity and the delta given there. A
-- message that is not accepted is refused with the status 400 and a code of Business Central's
-- messages.
pub to_stock_command-Maps : (dto : BcStockEvent) → Maps dto (to_stock_command dto)
unfolding to_stock_command
to_stock_command-Maps dto = ground (arith, event_lines-Built dto dto.variants)
