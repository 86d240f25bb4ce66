-- ===== src/Tests.antt =====
-- The theorems at concrete data.
pub mod Data
pub mod Flights
mod Overtaken
use layer_backend.Base.{
  map, ℕ, String, true, false, Option, none, some, List, [], ◌∷◌, ◌≡◌, refl, ◌⊎◌, arith,
}
use layer_backend.Base.Int.{ℤ, pos, negsuc, ◌-ℤ◌, ◌≤ℤ◌}
use layer_backend.Base.Rows
use layer_backend.Shared.Errors.{Exception}
use layer_backend.Shared.Json.{Json}
use layer_backend.Shared.Filters.{at_edge}
use layer_backend.Shared.Layers.{through, through-at_edge}
use layer_backend.Schema.{OutboxStatus, BcEventType, RecalculationReason}
use layer_backend.Platform.{Platform, Validated, valid}
use layer_backend.Platform.Simple.{
  list_model, simple, never, reserved_four, ecom_down, accepted, kafka_down,
}
use layer_backend.World.{World}
use layer_backend.Stock.Types.{
  StockTarget, StockLine, StockCalculationInput, StockCalculationResult,
}
use layer_backend.Stock.Calculate.{calculate, calculate_quantity, calculate_monotone}
use layer_backend.Stock.Recalculate.{run, finish}
use layer_backend.Stock.Apply.{write_line}
use layer_backend.Stock.Repositories.Tasks as Tasks
use layer_backend.Stock.Repositories.ShopStocks.{set_quantity}
use layer_backend.Stock.Retry.{retry_pending}
use layer_backend.Stock.Attempts.{Counts, record_unavailable-Counts, Queues, enqueue-Queues}
use layer_backend.Stock.Sweep.{Sweeps, retry_pending-Sweeps}
use layer_backend.Stock.Quantities.Writes.{WritesLine, write_line-WritesLine}
use layer_backend.Stock.Quantities.Regions.{Shifts, set_quantity-Shifts}
use layer_backend.Stock.Quantities.Nonneg.{IsNonneg, ingest_stock-IsNonneg}
use layer_backend.Exec.{is_err}
use layer_backend.World.Resolves.{IsFaultless}
use layer_backend.Stock.Types.{StockUpdateCommand}
use layer_backend.Stock.Repositories.Shops.{region_by_id}
use layer_backend.Stock.Repositories.ShopStocks.{feeds}
use layer_backend.Stock.Apply.{apply_stock, resolve}
use layer_backend.Stock.Pairs.Targets.{Targets, apply_stock-Targets}
use layer_backend.Stock.Shops.{resolve-feeds}
use layer_backend.Stock.Results.Value.{Calculates, run-Calculates}
use layer_backend.Stock.Results.Resolves.{HasRegion, run-Resolves}
use layer_backend.Stock.Results.Finish.{Finishes, finish-Finishes}
use layer_backend.Stock.Results.Publish.{Told, run-Told}
use layer_backend.Ecom.Publisher.{publish_pending}
use layer_backend.Ecom.Drain.{Publishes, publish_pending-Publishes}
use layer_backend.EcomApi.{get_reserved_quantity}
use layer_backend.EcomApi.Retry.{Answers, get_reserved_quantity-Answers}
use layer_backend.BcEvents.Dto.{Reported, BcStockEvent}
use layer_backend.BcEvents.Mapping.{to_stock_command}
use layer_backend.BcEvents.Lines.{Maps, to_stock_command-Maps}
use layer_backend.BcEvents.Inbox.{KafkaMessageMeta}
use layer_backend.BcEvents.Owing.{Commits, apply_message-Commits}
use layer_backend.BcEvents.Ingest.{
  apply_message, ingest, apply_stock_event, ingest_stock, ingest_product,
}
use layer_backend.BcEvents.Outcomes.{Settles}
use layer_backend.BcEvents.Settling.{ingest-Settles}
use layer_backend.Frames.Catalogue.{SameStock, ingest_product-SameStock}
use layer_backend.BcEvents.Controller.{KafkaContext, to_message_meta, handle_stock}
use layer_backend.Health.{check}
use layer_backend.Health.Checks.{Checks, check-Checks}
use layer_backend.Pipeline.Service.{get_trace}
use layer_backend.Pipeline.Shown.{Answers as AnswersTrace}
use layer_backend.Pipeline.Sums.{IsOnlyRegion, AddsUp, get_trace-AddsUp}
use layer_backend.Pipeline.Withheld.{Withholds, run-Withholds}
use layer_backend.Stock.Read.Answers as Read
use layer_backend.System.Steps.{Reach, here, next, drain, stock_message}
use layer_backend.System.Baseline.{Agrees, Reach-Agrees}
use layer_backend.System.Flights.Holds.{Holds}
use layer_backend.System.Flights.Safe.{Turns-Holds}
use layer_backend.Tests.Flights.{quiet_sky, landed_sky, shirt-Turns, told_shop-Holds}
use layer_backend.Shared.Json.{property}
use layer_backend.EcomApi.{get_reserved_quantity}
use layer_backend.MockEcom.{
  serve_all, initial, handle, put_state, apply_patch, check_patch, own_properties, assign,
  set_field, last_property,
}
use layer_backend.MockEcom.Serves.{
  Reaches, AcceptsNumbers, AcceptsTexts, Gets, is_failing, get_reserved_quantity-Gets,
}
use layer_backend.Tests.Data.{mocked, mocked_shop, ok_line, index_name, three_reserved}
use layer_backend.Stock.Quantities.Refines.{Refines, apply_stock-Refines}
use layer_backend.BcEvents.Mapping.{to_stock_command}
use layer_backend.Exec.{ok}
use layer_backend.Visualizer.Activity.{
  summarise, stock_places, places_of, place_text, format_number, join,
}
use layer_backend.Visualizer.Activity.Lines.{literal, variant_of, Shows, to_stock_command-Shows}
use layer_backend.Tests.Data.{print_plainly, hollow_event}
use layer_backend.System.Nonneg.{Reach-IsNonneg}
use layer_backend.System.Redelivery.{IsSeen, Skips, ingest-Skips_later}
use layer_backend.Ecom.Drain.{status_at}
use layer_backend.System.Deliveries.{Deliveries, Reach-Deliveries}
use text.Mathlib.TextBridge.{of_list}
use layer_backend.Base.{All}
use layer_backend.Shared.Config.{trim_start, trim_end, kafka_brokers}
use layer_backend.Shared.Config.Lists.{IsItem, print_items, kafka_brokers-print_items}
use layer_backend.Shared.Filters.Unreached.{Unknown, recalculate-Unknown}
use layer_backend.Ecom.Empties.{backlog, drains, drains-Empties}
use layer_backend.Visualizer.{plural}
use layer_backend.Visualizer.Plural.{ukrainian, plural-ukrainian}
use layer_backend.Tests.Data.{
  deployment, two_brokers, takes_all, delivery, informed_shop, informed_shop-IsSeen, shirt_event,
  decode, open_shop, cut_off, message, shirt, three_off, two_lines, shirt_value, shirt_input,
  scarce_input, in_stock, offline,
}

in_stock-IsNonneg : IsNonneg open_shop in_stock.db
unfolding simple list_model Rows.lookup
in_stock-IsNonneg k = ground arith

run-Told_example : Told open_shop shirt in_stock (1, 2) (run open_shop shirt in_stock)
run-Told_example = run-Told open_shop shirt in_stock (1, 2)

ingest-Settles_example : Settles open_shop Json.null message in_stock (
    ingest open_shop BcEventType.stock decode Json.null message
      (apply_stock_event open_shop)
      in_stock)
ingest-Settles_example =
    ingest-Settles open_shop Json.null message BcEventType.stock decode
      (apply_stock_event open_shop) in_stock

ingest_stock-IsNonneg_example :
    IsNonneg open_shop (ingest_stock open_shop Json.null message in_stock).1.db
ingest_stock-IsNonneg_example =
    ingest_stock-IsNonneg open_shop Json.null message in_stock in_stock-IsNonneg

publish_pending-Publishes_example :
    Publishes open_shop 5 in_stock (publish_pending open_shop in_stock)
publish_pending-Publishes_example = publish_pending-Publishes open_shop 5 in_stock

record_unavailable-Counts_example :
    Counts cut_off shirt 1
      (1, 2)
      offline
      (Tasks.record_unavailable cut_off shirt "timeout" 1 offline)
record_unavailable-Counts_example =
    record_unavailable-Counts cut_off shirt "timeout" 1 (1, 2) offline

enqueue-Queues_example :
    Queues open_shop shirt RecalculationReason.bc_stock
      (1, 2)
      in_stock
      (Tasks.enqueue open_shop shirt RecalculationReason.bc_stock in_stock)
enqueue-Queues_example = enqueue-Queues open_shop shirt RecalculationReason.bc_stock (1, 2) in_stock

write_line-WritesLine_example :
    WritesLine open_shop
      (1, "kyiv")
      three_off
      (1, "kyiv")
      in_stock
      (write_line open_shop 1 "kyiv" three_off in_stock)
write_line-WritesLine_example =
    write_line-WritesLine open_shop 1 "kyiv" three_off (1, "kyiv") in_stock

to_stock_command-Maps_example : Maps shirt_event (to_stock_command shirt_event)
to_stock_command-Maps_example = to_stock_command-Maps shirt_event

get_reserved_quantity-Answers_example :
    Answers cut_off shirt offline (get_reserved_quantity cut_off shirt offline)
get_reserved_quantity-Answers_example = get_reserved_quantity-Answers cut_off shirt offline

set_quantity-Shifts_example :
    Shifts open_shop
      (1, "kyiv")
      (pos 9)
      1
      2
      in_stock
      (set_quantity open_shop 1 "kyiv" (pos 9) in_stock)
set_quantity-Shifts_example = set_quantity-Shifts open_shop 1 "kyiv" (pos 9) 1 2 in_stock

calculate_quantity_example :
    let q = (calculate scarce_input).quantity in
    let difference = pos 3 -ℤ pos 2 -ℤ pos 4 in
    (pos 0 ≤ℤ q) × (difference ≤ℤ q) × ((q ≡ difference) ⊎ (q ≡ pos 0))
calculate_quantity_example = calculate_quantity scarce_input

calculate_monotone_example : (calculate scarce_input).quantity ≤ℤ (calculate shirt_input).quantity
calculate_monotone_example =
    calculate_monotone scarce_input shirt_input (omega arith) (omega arith) (omega arith)

retry_pending-Sweeps_example : Sweeps cut_off offline (retry_pending cut_off offline)
retry_pending-Sweeps_example = retry_pending-Sweeps cut_off offline

finish-Finishes_example :
    Finishes open_shop shirt shirt_value false true in_stock
      (finish open_shop shirt shirt_value false true in_stock)
finish-Finishes_example = finish-Finishes open_shop shirt shirt_value false true in_stock

through-at_edge_example :
    (through ("inner" ∷ "outer" ∷ []) (Exception.prisma "P2025" "no shirt")
      ≡ Exception.http 400 none "outer")
    × (at_edge (through ("inner" ∷ "outer" ∷ []) (Exception.prisma "P2025" "no shirt"))
        ≡ through ("inner" ∷ "outer" ∷ []) (Exception.prisma "P2025" "no shirt"))
through-at_edge_example =
    through-at_edge "inner" ("outer" ∷ []) (Exception.prisma "P2025" "no shirt")

ingest_product-SameStock_example :
    SameStock open_shop in_stock.db (ingest_product open_shop Json.null message in_stock).1.db
ingest_product-SameStock_example = ingest_product-SameStock open_shop Json.null message in_stock

run-Calculates_example : Calculates open_shop shirt in_stock (run open_shop shirt in_stock)
run-Calculates_example = run-Calculates open_shop shirt in_stock

in_stock-HasRegion : HasRegion open_shop 2 in_stock.db
unfolding region_by_id simple list_model
in_stock-HasRegion = refl

nothing_fails : IsFaultless open_shop
unfolding simple
nothing_fails n = refl

run-Resolves_example : is_err (run open_shop shirt in_stock).0 ≡ false
run-Resolves_example = run-Resolves open_shop nothing_fails shirt in_stock in_stock-HasRegion

apply_stock-Targets_example :
    Targets open_shop two_lines (1, 2) (apply_stock open_shop two_lines in_stock)
apply_stock-Targets_example = apply_stock-Targets open_shop two_lines (1, 2) in_stock

resolve-feeds_example :
    feeds open_shop 2 (resolve open_shop "lviv" in_stock).1.db "kyiv"
    ≡ feeds open_shop 2 in_stock.db "kyiv"
resolve-feeds_example = resolve-feeds open_shop "lviv" 2 "kyiv" in_stock

apply_message-Commits_example :
    Commits open_shop
      (1, 2)
      shirt_event
      in_stock
      (apply_message open_shop message (apply_stock_event open_shop shirt_event) in_stock)
apply_message-Commits_example = apply_message-Commits open_shop (1, 2) shirt_event message in_stock

in_stock-Agrees : Agrees open_shop (7, 7) in_stock.db
unfolding simple list_model Rows.lookup
in_stock-Agrees = refl

Reach-Agrees_example :
    Agrees open_shop
      (7, 7)
      (handle_stock open_shop Json.null delivery (publish_pending open_shop in_stock).1).1.db
Reach-Agrees_example =
    Reach-Agrees open_shop (7, 7) in_stock
      (handle_stock open_shop Json.null delivery (publish_pending open_shop in_stock).1).1
      (next (next here (drain refl)) (stock_message Json.null delivery refl)) in_stock-Agrees

Reach-IsNonneg_example :
    IsNonneg open_shop
      (handle_stock open_shop Json.null delivery (publish_pending open_shop in_stock).1).1.db
Reach-IsNonneg_example =
    Reach-IsNonneg open_shop in_stock
      (handle_stock open_shop Json.null delivery (publish_pending open_shop in_stock).1).1
      (next (next here (drain refl)) (stock_message Json.null delivery refl)) in_stock-IsNonneg

ingest-Skips_later_example : Skips open_shop message (publish_pending open_shop informed_shop).1 (
    ingest open_shop BcEventType.stock decode Json.null message
      (apply_stock_event open_shop)
      (publish_pending open_shop informed_shop).1)
ingest-Skips_later_example =
    ingest-Skips_later open_shop message BcEventType.stock decode Json.null
      (apply_stock_event open_shop) informed_shop (publish_pending open_shop informed_shop).1
      (next here (drain refl)) informed_shop-IsSeen

check-Checks_example : Checks open_shop in_stock (check open_shop in_stock)
check-Checks_example = check-Checks open_shop in_stock

is_ukraine :
    region_by_id open_shop 2 in_stock.db
    ≡ some ("UA", record { id = 2; name = "Ukraine"; safety_buffer = pos 1 })
unfolding region_by_id simple list_model
is_ukraine = refl

only_ukraine : IsOnlyRegion open_shop in_stock.db 2 "UA"
unfolding region_by_id simple list_model
only_ukraine j region h = ground (arith, h)

get_trace-AddsUp_example :
    AddsUp open_shop "shirt" "blue" 2 "UA" in_stock (get_trace open_shop "shirt" "blue" in_stock)
get_trace-AddsUp_example =
    get_trace-AddsUp open_shop "shirt" "blue" 2 "UA"
      (record { id = 2; name = "Ukraine"; safety_buffer = pos 1 }) in_stock is_ukraine only_ukraine

run-Withholds_example : Withholds open_shop "UA" "Ukraine" shirt (run open_shop shirt in_stock)
run-Withholds_example = run-Withholds open_shop "UA" "Ukraine" shirt in_stock

Reach-Deliveries_example :
    Deliveries
      (status_at open_shop in_stock.db 5)
      (status_at open_shop (publish_pending open_shop in_stock).1.db 5)
Reach-Deliveries_example =
    Reach-Deliveries open_shop 5 in_stock (publish_pending open_shop in_stock).1
      (next here (drain refl))

two_brokers-IsItems : All IsItem two_brokers
unfolding trim_start trim_end
two_brokers-IsItems = (
  (refl, refl, refl, tt, tt, (refl, (refl, tt))),
  ((refl, refl, refl, (refl, tt), tt, (refl, (refl, (refl, tt)))), tt),
)

kafka_brokers-print_items_example :
    kafka_brokers (record deployment { kafka_brokers = of_list (print_items two_brokers) })
    ≡ "a1" ∷ "b2" ∷ []
kafka_brokers-print_items_example =
    kafka_brokers-print_items deployment two_brokers two_brokers-IsItems

idle : in_stock.draining ≡ false
unfolding simple list_model
idle = refl

drains-Empties_example :
    backlog open_shop (drains open_shop (backlog open_shop in_stock) in_stock) ≡ 0
drains-Empties_example = drains-Empties open_shop nothing_fails takes_all in_stock idle

not_sent_yet : open_shop.product_variant.find_unique ("shirt", "red") in_stock.db.variants ≡ none
unfolding simple list_model Rows.lookup
not_sent_yet = refl

recalculate-Unknown_example : Unknown open_shop "shirt" "red" in_stock
recalculate-Unknown_example =
    recalculate-Unknown open_shop "shirt" "red" in_stock (nothing_fails in_stock.tick) not_sent_yet

plural-ukrainian_example : plural 111 "one" "few" "many" ≡ ukrainian 111 "one" "few" "many"
plural-ukrainian_example = plural-ukrainian 111 "one" "few" "many"

Turns-Holds_example : Holds open_shop (1, 2) (pos 4) landed_sky.world.db
Turns-Holds_example =
    Turns-Holds open_shop (1, 2) (pos 4) quiet_sky landed_sky shirt-Turns refl told_shop-Holds
      (λ fresh own. omega arith, tt)

mocked-Reaches : Reaches mocked ok_line (serve_all index_name three_reserved initial)
unfolding simple
mocked-Reaches n sku variant_code region_code = refl

mocked-AcceptsNumbers : AcceptsNumbers mocked
unfolding simple
mocked-AcceptsNumbers n = refl

mocked-AcceptsTexts : AcceptsTexts mocked
unfolding simple
mocked-AcceptsTexts s = refl

get_reserved_quantity-Gets_example :
    (n : ℤ) × (property "reserved" (serve_all index_name three_reserved initial)
      ≡ some (Json.number n))
    × Gets
        (is_failing (property "mode" (serve_all index_name three_reserved initial)))
        n
        (get_reserved_quantity mocked shirt mocked_shop).0
get_reserved_quantity-Gets_example =
    get_reserved_quantity-Gets mocked ok_line index_name (λ i. refl) mocked-AcceptsNumbers
      mocked-AcceptsTexts three_reserved shirt mocked_shop mocked-Reaches

three_in_state :
    property "reserved" (serve_all index_name three_reserved initial) ≡ some (Json.number (pos 3))
unfolding property serve_all handle put_state apply_patch check_patch own_properties assign
    set_field last_property
three_in_state = refl

apply_stock-Refines_example :
    Refines open_shop "shirt" two_lines.lines in_stock.db (apply_stock open_shop two_lines in_stock)
apply_stock-Refines_example = apply_stock-Refines open_shop two_lines in_stock

to_stock_command-Shows_example :
    Shows print_plainly (literal shirt_event) (to_stock_command shirt_event)
to_stock_command-Shows_example =
    to_stock_command-Shows print_plainly (literal shirt_event) shirt_event refl (((tt, tt), tt), tt)

-- The log of the message, and what it shows of a variant that nests an empty list: nothing, where
-- the service applies a line.
shown_shirt :
    summarise print_plainly BcEventType.stock none (literal shirt_event)
    ≡ "залишок shirt · blue@kyiv→-n"
unfolding summarise stock_places places_of place_text format_number join
shown_shirt = refl

shown_nothing :
    (stock_places print_plainly (literal hollow_event) (map variant_of hollow_event.variants) ≡ [])
    × (to_stock_command hollow_event
        ≡ ok (record {
          sku = "shirt";
          lines =
              (record {
                variant_code = "blue";
                shop_code = "kyiv";
                quantity = some (pos 5);
                quantity_delta = none;
              })
              ∷ [];
        }))
unfolding stock_places places_of to_stock_command
shown_nothing = (refl, refl)
