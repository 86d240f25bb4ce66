-- ===== src/MockEcom/Serves.antt =====
-- The reservations client against the mock: src/shared/ecom-api/ecom-api.service.ts and
-- tools/mock-ecom.mjs.
use layer_backend.Base.{
  ℕ, suc, String, Bool, true, false, Option, none, some, List, not, ◌≡◌, refl, sym, subst, ap, ◌∙◌,
  ◌&&◌, ◌||◌, leb, ltb, arith, str_eq, if◌then◌else◌, Bool-cases, inl, inr,
}
use layer_backend.Base.Int.{ℤ, pos, leb_ℤ}
use layer_backend.Exec.{Result, ok, err, is_err}
use layer_backend.Shared.Json.{Json, Fields, property}
use layer_backend.Platform.{Platform, Fetched}
use layer_backend.World.{World}
use layer_backend.Stock.Types.{StockTarget}
use layer_backend.EcomApi.{
  timeout_ms, read_response, read_body, read_reservation, is_valid_reservation,
  get_reserved_quantity,
}
use layer_backend.EcomApi.Retry.{reply, Answers, get_reserved_quantity-Answers, is_unavailable}
use layer_backend.MockEcom.{
  Reply, sent, delayed, crash, empty, Request, initial, answer, answer_in, reservation, serve_all,
}
use layer_backend.MockEcom.State.{HasNumber, has, AreIndices, serve_all-HasNumber}

-- What `fetch` makes of a reply, given `${status} ${statusText}`: it gives up after its timeout.
abbrev pub fetched : (ℕ → String) → Reply → Fetched
fetched line (sent status body) =
    Fetched.replied (leb 200 status && ltb status 300) (line status) (some body)
fetched line (delayed ms status body) =
    if ltb timeout_ms ms
    then Fetched.rejected "request timed out"
    else Fetched.replied (leb 200 status && ltb status 300) (line status) (some body)
fetched line crash = Fetched.rejected "socket hang up"

-- The request of the client, as the mock reads it.
abbrev pub asked : String → String → Request
asked sku variant_code = record {
  method = "GET";
  pathname = "/api/reservations";
  body = empty;
  sku = some sku;
  variant_code = some variant_code;
}

-- The modes in which the mock gives no number.
abbrev pub is_failing : Option Json → Bool
is_failing (some (Json.text s)) =
    str_eq s "down" || (str_eq s "garbage" || (str_eq s "coercible" || str_eq s "slow"))
is_failing _ = false

module _ (failing : Bool) (n : ℤ) where
  -- What the client makes of one reply, by whether the mode is a failing one, and the number of the
  -- mock.
  abbrev Reads : Result ℤ → Type 0
  Reads (ok m) = (failing ≡ false) × (leb_ℤ (pos 0) n ≡ true) × (m ≡ n)
  Reads (err e) = (failing || not (leb_ℤ (pos 0) n)) ≡ true

  -- And of its call: the number, or that e-com is unavailable.
  abbrev pub Gets : Result ℤ → Type 0
  Gets (ok m) = (failing ≡ false) × (leb_ℤ (pos 0) n ≡ true) × (m ≡ n)
  Gets (err e) = ((failing || not (leb_ℤ (pos 0) n)) ≡ true) × (is_unavailable e ≡ true)

module _ (p : Platform) where
  -- What the constraints of class-validator accept.
  abbrev pub AcceptsNumbers : Type 0
  AcceptsNumbers = (n : ℤ) → p.is_int (some (Json.number n)) ≡ true

  abbrev pub AcceptsTexts : Type 0
  AcceptsTexts = (s : String) → p.is_string (some (Json.text s)) ≡ true

module _ (p : Platform) (line : ℕ → String) where
  -- `fetch` reaches the mock, in a given state.
  abbrev pub Reaches : Fields → Type 0
  Reaches state =
      (n : ℕ) (sku variant_code region_code : String)
      → p.fetch n sku variant_code region_code
        ≡ fetched line (answer (asked sku variant_code) state)

  module _ (numbers : AcceptsNumbers p) (texts : AcceptsTexts p) (sku code : String) (n : ℤ) where
    abbrev replied : Json → Result ℤ
    replied body = read_response p (Fetched.replied true (line 200) (some body))

    plain : Reads false n (replied (reservation (asked sku code) (some (Json.number n))))
    unfolding read_response read_body read_reservation is_valid_reservation property
    plain = ground (arith, numbers n, texts sku, texts code, p.min-number (pos 0) n)

    garbage :
        Reads true n
          (replied (Json.object (Fields.field "unexpected" (Json.text "shape") Fields.end)))
    unfolding read_response read_body read_reservation property
    garbage = ground arith

    coercible :
        Reads true n (replied (Json.object (Fields.field "reserved" (Json.text "") Fields.end)))
    unfolding read_response read_body read_reservation property
    coercible = ground arith

    abbrev served : Option Json → Result ℤ
    served mode =
        read_response p (fetched line (answer_in mode (asked sku code) (some (Json.number n))))

    served-Reads : (mode : Option Json) → Reads (is_failing mode) n (served mode)
    unfolding answer_in read_response
    served-Reads (some (Json.text s)) = elim (Bool-cases (str_eq s "down")) [
      | inl e ↦ rw e refl
      | inr d ↦ elim (Bool-cases (str_eq s "garbage")) [
        | inl e ↦ rw (d, e) garbage
        | inr g ↦ elim (Bool-cases (str_eq s "coercible")) [
          | inl e ↦ rw (d, g, e) coercible
          | inr c ↦ elim (Bool-cases (str_eq s "slow")) [
            | inl e ↦ rw (d, g, c, e) refl
            | inr sl ↦ rw (d, g, c, sl) plain
          ]
        ]
      ]
    ]
    served-Reads none = plain
    served-Reads (some Json.null) = plain
    served-Reads (some (Json.boolean b)) = plain
    served-Reads (some (Json.number m)) = plain
    served-Reads (some (Json.fraction f)) = plain
    served-Reads (some (Json.array xs)) = plain
    served-Reads (some (Json.object f)) = plain

module _ (p : Platform) (failing : Bool) (n : ℤ) (t : StockTarget) (w : World p) (r : Result ℤ)
    (same : (i : ℕ) → reply p t i ≡ r) where
  resolved : (m : ℤ) (v : World p) → Answers p t w (ok m, v) → r ≡ ok m
  resolved m v a = elim (a.1) [
    | inl e ↦ sym (same w.tick) ∙ e
    | inr x ↦ elim x [
      | inl y ↦ sym (same (suc w.tick)) ∙ y.1
      | inr y ↦ sym (same (suc (suc w.tick))) ∙ y.2
    ]
  ]

  rejected : Reads failing n r → is_err r ≡ true → (failing || not (leb_ℤ (pos 0) n)) ≡ true
  rejected reads h =
      elim r
          as (λ r.
            Reads failing n r → is_err r ≡ true → (failing || not (leb_ℤ (pos 0) n)) ≡ true) [
              | ok m ↦ (λ x y. cc)
              | err e ↦ (λ x y. x)
            ]
        reads h

  -- The call makes the same of three equal replies.
  gets : (x : Result ℤ × World p) → Reads failing n r → Answers p t w x → Gets failing n x.0
  gets (ok m, v) reads a = rw (resolved m v a) at reads
  gets (err e, v) reads a = (rejected reads (subst (λ q. is_err q ≡ true) (same w.tick) a.1), a.0)

module _ (p : Platform) (line print : ℕ → String) where
  -- Whatever requests the mock has taken, its state has a number of reserved units; and when `fetch`
  -- reaches the mock in that state, the reservations call returns that number if the mode is none of
  -- the four that fail and the number is not negative, and otherwise it rejects with the error that
  -- says that e-com is unavailable: `{"reserved": ""}` is never read as a number.
  pub get_reserved_quantity-Gets :
      AreIndices print
      → AcceptsNumbers p
      → AcceptsTexts p
      → (rs : List Request) (t : StockTarget) (w : World p)
      → Reaches p line (serve_all print rs initial)
      → (n : ℤ) × (property "reserved" (serve_all print rs initial) ≡ some (Json.number n))
        × Gets
            (is_failing (property "mode" (serve_all print rs initial)))
            n
            (get_reserved_quantity p t w).0
  unfolding answer
  get_reserved_quantity-Gets indices numbers texts rs t w reaches =
      go (serve_all-HasNumber print indices rs)
    where
      state : Fields
      state = serve_all print rs initial

      go :
          HasNumber state
          → (n : ℤ) × (property "reserved" state ≡ some (Json.number n))
            × Gets (is_failing (property "mode" state)) n (get_reserved_quantity p t w).0
      go (has n e) = (
        n,
        e,
        gets p (is_failing (property "mode" state)) n t w
            (served p line numbers texts t.sku t.variant_code n (property "mode" state))
            (λ i. ap (read_response p) (
              reaches i t.sku t.variant_code t.region_code
              ∙ ap
                  (λ o.
                    fetched line (answer_in (property "mode" state) (asked t.sku t.variant_code) o))
                  e))
            (get_reserved_quantity p t w)
            (served-Reads p line numbers texts t.sku t.variant_code n (property "mode" state))
            (get_reserved_quantity-Answers p t w),
      )
