-- ===== src/EcomApi.antt =====
-- The reservations call: src/shared/ecom-api/ecom-api.service.ts, its constants and its response
-- class. Waiting between the attempts has no effect on the state and is left out.
pub mod Retry
use layer_backend.Base.{
  ℕ, zero, suc, ◌+◌, String, Bool, Option, none, some, ◌&&◌, ◌||◌, ◌<>◌, if◌then◌else◌,
}
use layer_backend.Base.Int.{ℤ, pos}
use layer_backend.Shared.Errors.{Exception, message_of}
use layer_backend.Shared.Json.{Json, Fields, property}
use layer_backend.Exec.{Result, ok, err, pure, throw, settled}
use layer_backend.Platform.{Platform, Fetched}
use layer_backend.World.{World, M}
use layer_backend.Stock.Types.{StockTarget}

-- `ECOM_API.RETRIES`.
abbrev pub retries : ℕ
retries = 2

-- `ECOM_API.TIMEOUT_MS`, after which `fetch` gives up.
abbrev pub timeout_ms : ℕ
timeout_ms = 3000

-- `IsOptional`: the other constraints are skipped for `undefined` and `null`.
abbrev pub is_optional : Option Json → Bool
is_optional none = Bool.true
is_optional (some Json.null) = Bool.true
is_optional (some _) = Bool.false

module _ (p : Platform) where
  -- The constraints of `EcomReservationResponseDto`.
  unfoldable pub is_valid_reservation : Fields → Bool
  is_valid_reservation body =
      (is_optional (property "sku" body) || p.is_string (property "sku" body))
      && (is_optional (property "variantCode" body) || p.is_string (property "variantCode" body))
      && (p.is_int (property "reserved" body) && p.min (pos 0) (property "reserved" body))

  -- `dto.reserved`. `@IsInt` leaves only the first case.
  abbrev pub number_or_throw : Option Json → Result ℤ
  number_or_throw (some (Json.number n)) = ok n
  number_or_throw _ = err (Exception.failure "unexpected response body: reserved is no number")

  unfoldable pub read_reservation : Fields → Result ℤ
  read_reservation body =
      if is_valid_reservation body
      then number_or_throw (property "reserved" body)
      else err (Exception.failure "unexpected response body: constraints")

  -- What `request` makes of the body: only an object is shaped into a response.
  unfoldable pub read_body : Option Json → Result ℤ
  read_body (some (Json.object body)) = read_reservation body
  read_body (some (Json.array items)) =
      err (Exception.failure "unexpected response body: expected an object, got an array")
  read_body (some _) = err (Exception.failure "unexpected response body: expected an object")
  read_body none = err (Exception.failure "response body is no JSON")

  unfoldable pub read_response : Fetched → Result ℤ
  read_response (Fetched.rejected reason) = err (Exception.failure reason)
  read_response (Fetched.replied success status body) =
      if success then read_body body else err (Exception.failure ("HTTP " <> status))

  -- `request`.
  unfoldable pub request : StockTarget → M p ℤ
  request query w = (
    read_response (p.fetch w.tick query.sku query.variant_code query.region_code),
    record w { tick = suc w.tick },
  )

  -- The loop of `getReservedQuantity`, with the attempts that are left and the last error.
  unfoldable pub attempt : ℕ → ℕ → String → StockTarget → M p ℤ
  attempt zero attempts last query = throw (
      Exception.ecom_unavailable
        ("e-com did not return reservations for "
          <> query.sku
          <> "/"
          <> query.variant_code
          <> " after "
          <> p.print attempts
          <> " attempt(s): "
          <> last)
        attempts)
  attempt (suc left) attempts last query =
      settled (request query)
        λ r. elim r [ ok n ↦ pure n | err e ↦ attempt left attempts (message_of e) query ]

  -- `getReservedQuantity`.
  unfoldable pub get_reserved_quantity : StockTarget → M p ℤ
  get_reserved_quantity query = attempt (retries + 1) (retries + 1) "" query
