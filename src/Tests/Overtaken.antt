-- ===== src/Tests/Overtaken.antt =====
-- A calculation that is overtaken: its number rests on carried-over reservations, was decided against
-- an older baseline, and is published above a newer one that e-com has confirmed.
use layer_backend.Base.{ℕ, String, true, false, some, List, [], ◌∷◌, ◌≡◌, refl, ltb, if◌then◌else◌}
use layer_backend.Base.Int.{pos, max_zero, ◌+ℤ◌, ◌-ℤ◌}
use layer_backend.Base.Rows
use layer_backend.Exec.{ok, settled, rethrow}
use layer_backend.Shared.Json.{Json, Fields, property}
use layer_backend.Platform.{Platform, Fetched}
use layer_backend.Platform.Simple.{list_model, simple, never, accepted}
use layer_backend.World.{World, query, call, execute, returning, transaction}
use layer_backend.Stock.Calculate.{calculate}
use layer_backend.Stock.Recalculate.{
  read_reservations, take_reserved, carry_over, should_publish, finish, store,
}
use layer_backend.Stock.Repositories.Shops.{find_safety_buffer, region_by_id}
use layer_backend.Stock.Repositories.ShopStocks.{sum_for_region, region_sum, feeds}
use layer_backend.Stock.Repositories.Tasks.{record_unavailable, mark_done}
use layer_backend.Stock.Results.Publish.{baseline}
use layer_backend.Ecom.Repositories.{find_current, upsert, enqueue}
use layer_backend.Ecom.Service.{get_current, save_calculated, enqueue_publication, publish_soon}
use layer_backend.EcomApi.{
  get_reserved_quantity, attempt, request, read_response, read_body, read_reservation,
  is_valid_reservation,
}
use layer_backend.System.Flights.{
  Flight, decide, take_off, land, Sky, Turns, takes_off, lands, none_yet, one_more,
}
use layer_backend.Tests.Data.{decode, told, shirt}

-- e-com answers from the seventh call on: eight units are reserved.
abbrev late : ℕ → String → String → String → Fetched
late n sku variant_code region_code =
    if ltb n 7
    then Fetched.rejected "request timed out"
    else Fetched.replied true "200 OK"
        (some (Json.object (Fields.field "reserved" (Json.number (pos 8)) Fields.end)))

abbrev flaky : Platform
flaky = simple never late accepted decode

-- Nine units in the shop, and four as the baseline.
abbrev nine : World flaky
unfolding simple list_model
nine = record (told late accepted) {
  db = record (told late accepted).db {
    shop_stocks = ((1, "kyiv"), record { quantity = pos 9; reported_at = 0 }) ∷ [];
  };
}

-- What the first run decides without e-com, and the second with it.
abbrev stale_flight : Flight
stale_flight = record {
  target = shirt;
  value = record { shops_total = pos 9; safety_buffer = pos 1; reserved = pos 4; quantity = pos 4 };
  stale = true;
  publish = true;
}

abbrev fresh_flight : Flight
fresh_flight = record {
  target = shirt;
  value = record { shops_total = pos 9; safety_buffer = pos 1; reserved = pos 8; quantity = pos 0 };
  stale = false;
  publish = true;
}

abbrev first : World flaky
first = (take_off flaky shirt nine).1

abbrev second : World flaky
second = (take_off flaky shirt first).1

stale_off : take_off flaky shirt nine ≡ (ok stale_flight, first)
unfolding take_off decide simple list_model Rows.lookup Rows.total Rows.upsert Rows.update_many
    sum_for_region find_safety_buffer get_current find_current read_reservations take_reserved
    carry_over record_unavailable returning execute get_reserved_quantity attempt request
    read_response read_body read_reservation is_valid_reservation property query call settled
    rethrow region_sum calculate should_publish max_zero ◌+ℤ◌ ◌-ℤ◌ region_by_id feeds
stale_off = refl

fresh_off : take_off flaky shirt first ≡ (ok fresh_flight, second)
unfolding take_off decide simple list_model Rows.lookup Rows.total Rows.upsert Rows.update_many
    sum_for_region find_safety_buffer get_current find_current read_reservations take_reserved
    carry_over record_unavailable returning execute get_reserved_quantity attempt request
    read_response read_body read_reservation is_valid_reservation property query call settled
    rethrow region_sum calculate should_publish max_zero ◌+ℤ◌ ◌-ℤ◌ region_by_id feeds
fresh_off = refl

abbrev confirmed : World flaky
confirmed = (land flaky fresh_flight second).1

abbrev overtaken : World flaky
overtaken = (land flaky stale_flight confirmed).1

abbrev sky : World flaky → List Flight → List Flight → Sky flaky
sky world flights past = record { world = world; flights = flights; past = past }

-- Both runs take off, the confirmed one lands, and then the other.
overtaken-Turns : Turns flaky (sky nine [] []) (sky overtaken [] (fresh_flight ∷ stale_flight ∷ []))
overtaken-Turns =
    one_more {t = sky confirmed (stale_flight ∷ []) (fresh_flight ∷ stale_flight ∷ [])}
      (one_more
        {t = sky second (fresh_flight ∷ stale_flight ∷ []) (fresh_flight ∷ stale_flight ∷ [])}
        (one_more {t = sky first (stale_flight ∷ []) (stale_flight ∷ [])}
          (one_more {t = sky nine [] []} none_yet
            (takes_off shirt stale_flight stale_off refl refl))
          (takes_off shirt fresh_flight fresh_off refl refl))
        (lands [] (stale_flight ∷ []) fresh_flight refl refl refl refl))
      (lands [] [] stale_flight refl refl refl refl)

-- e-com is told of none, and then of four again.
overtaken_baseline :
    (baseline flaky confirmed.db (1, 2) ≡ some (pos 0))
    × (baseline flaky overtaken.db (1, 2) ≡ some (pos 4))
unfolding land finish store transaction save_calculated enqueue_publication publish_soon upsert
    enqueue mark_done execute simple list_model Rows.lookup Rows.upsert Rows.update_many call
    settled rethrow take_off decide Rows.total sum_for_region find_safety_buffer get_current
    find_current read_reservations take_reserved carry_over record_unavailable returning
    get_reserved_quantity attempt request read_response read_body read_reservation
    is_valid_reservation property query region_sum calculate should_publish max_zero ◌+ℤ◌ ◌-ℤ◌
    region_by_id feeds
overtaken_baseline = (refl, refl)
