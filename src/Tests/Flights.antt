-- ===== src/Tests/Flights.antt =====
-- A calculation in two parts, at concrete data.
use layer_backend.Base.{[], ◌∷◌, ◌≡◌, refl, arith}
use layer_backend.Base.Int.{pos}
use layer_backend.Base.Rows
use layer_backend.Exec.{ok, settled, rethrow}
use layer_backend.Base.Int.{max_zero, ◌+ℤ◌, ◌-ℤ◌}
use layer_backend.World.{query, call}
use layer_backend.Stock.Calculate.{calculate}
use layer_backend.Stock.Recalculate.{read_reservations, take_reserved, should_publish}
use layer_backend.Stock.Repositories.Shops.{find_safety_buffer, region_by_id}
use layer_backend.Stock.Repositories.ShopStocks.{sum_for_region, region_sum, feeds}
use layer_backend.Ecom.Repositories.{find_current}
use layer_backend.Ecom.Service.{get_current}
use layer_backend.Shared.Json.{property}
use layer_backend.EcomApi.{
  get_reserved_quantity, attempt, request, read_response, read_body, read_reservation,
  is_valid_reservation,
}
use layer_backend.System.Flights.{decide}
use layer_backend.Platform.Simple.{list_model, simple}
use layer_backend.System.Flights.{take_off, land, Sky, Turns, takes_off, lands, none_yet, one_more}
use layer_backend.System.Flights.Holds.{Holds}
use layer_backend.Tests.Data.{open_shop, told_shop, shirt, shirt_flight}

-- A run for the shirt that takes off and lands.
abbrev pub quiet_sky : Sky open_shop
quiet_sky = record { world = told_shop; flights = []; past = [] }

abbrev pub busy_sky : Sky open_shop
busy_sky = record {
  world = (take_off open_shop shirt told_shop).1;
  flights = shirt_flight ∷ [];
  past = shirt_flight ∷ [];
}

abbrev pub landed_sky : Sky open_shop
landed_sky = record {
  world = (land open_shop shirt_flight busy_sky.world).1;
  flights = [];
  past = shirt_flight ∷ [];
}

pub shirt-take_off :
    take_off open_shop shirt told_shop ≡ (ok shirt_flight, (take_off open_shop shirt told_shop).1)
unfolding take_off decide simple list_model Rows.lookup Rows.total sum_for_region find_safety_buffer
    get_current find_current read_reservations take_reserved get_reserved_quantity attempt request
    read_response read_body read_reservation is_valid_reservation property query call settled
    rethrow region_sum calculate should_publish max_zero ◌+ℤ◌ ◌-ℤ◌ region_by_id feeds
shirt-take_off = refl

pub told_shop-Holds : Holds open_shop (1, 2) (pos 4) told_shop.db
unfolding simple list_model Rows.lookup
told_shop-Holds = (refl, omega arith)

-- The run takes off at one turn and lands at the next.
pub shirt-Turns : Turns open_shop quiet_sky landed_sky
shirt-Turns =
    one_more (one_more none_yet (takes_off shirt shirt_flight shirt-take_off refl refl))
      (lands [] [] shirt_flight refl refl refl refl)
