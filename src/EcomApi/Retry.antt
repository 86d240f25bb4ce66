-- ===== src/EcomApi/Retry.antt =====
-- What the retries of the reservations call return: ecom-api.service.ts.
use layer_backend.Base.{ℕ, suc, Bool, true, false, Option, none, some, ◌≡◌, ◌⊎◌, arith}
use layer_backend.Base.Int.{ℤ, pos, ◌≤ℤ◌}
use layer_backend.Shared.Errors.{Exception}
use layer_backend.Shared.Json.{Json, Fields, property}
use layer_backend.Exec.{Result, ok, err, is_err, settled}
use layer_backend.Platform.{Platform, Fetched}
use layer_backend.World.{World}
use layer_backend.Stock.Types.{StockTarget}
use layer_backend.EcomApi.{
  is_valid_reservation, read_reservation, read_body, read_response, request, attempt,
  get_reserved_quantity, number_or_throw,
}

abbrev pub is_unavailable : Exception → Bool
is_unavailable (Exception.ecom_unavailable m n) = true
is_unavailable _ = false

module _ (p : Platform) where
  -- The answer of e-com to the `n`-th call.
  abbrev pub reply : StockTarget → ℕ → Result ℤ
  reply t n = read_response p (p.fetch n t.sku t.variant_code t.region_code)

  abbrev Fits : Result ℤ → Type 0
  Fits (ok n) = pos 0 ≤ℤ n
  Fits (err e) = Unit

  number-Fits : (v : Option Json) → p.min (pos 0) v ≡ true → Fits (number_or_throw p v)
  number-Fits (some (Json.number n)) h = ground (arith, p.min-number (pos 0) n)
  number-Fits v h = ground arith

  reservation-Fits : (body : Fields) → Fits (read_reservation p body)
  unfolding read_reservation is_valid_reservation
  reservation-Fits body = ground (arith, number-Fits (property "reserved" body))

  reply-Fits : (f : Fetched) → Fits (read_response p f)
  unfolding read_response read_body
  reply-Fits (Fetched.rejected reason) = tt
  reply-Fits (Fetched.replied false status body) = tt
  reply-Fits (Fetched.replied true status (some (Json.object body))) = reservation-Fits body
  reply-Fits (Fetched.replied true status (some j)) = ground arith
  reply-Fits (Fetched.replied true status none) = tt

  -- The first of three answers that is a number, or the error for e-com when none is.
  abbrev pub Answers : StockTarget → World p → Result ℤ × World p → Type 0
  Answers t w (ok n, w') =
      (pos 0 ≤ℤ n)
      × ((reply t w.tick ≡ ok n)
          ⊎ ((is_err (reply t w.tick) ≡ true) × (reply t (suc w.tick) ≡ ok n))
          ⊎ ((is_err (reply t w.tick) ≡ true)
              × (is_err (reply t (suc w.tick)) ≡ true)
              × (reply t (suc (suc w.tick)) ≡ ok n)))
      × (w'.db ≡ w.db)
  Answers t w (err e, w') =
      (is_unavailable e ≡ true)
      × (is_err (reply t w.tick) ≡ true)
      × (is_err (reply t (suc w.tick)) ≡ true)
      × (is_err (reply t (suc (suc w.tick))) ≡ true)
      × (w'.db ≡ w.db)

  -- The reservations call makes at most three requests and returns the first usable answer, which is
  -- never negative. It rejects only when none of the three is usable, and then with the error that
  -- says that e-com is unavailable. The database is not touched.
  pub get_reserved_quantity-Answers :
      (t : StockTarget) (w : World p) → Answers t w (get_reserved_quantity p t w)
  unfolding get_reserved_quantity attempt request settled
  get_reserved_quantity-Answers t w = ground (
    arith,
    reply-Fits (p.fetch w.tick t.sku t.variant_code t.region_code),
    reply-Fits (p.fetch (suc w.tick) t.sku t.variant_code t.region_code),
    reply-Fits (p.fetch (suc (suc w.tick)) t.sku t.variant_code t.region_code),
  )
