-- ===== src/Platform/Simple.antt =====
-- A platform whose tables are lists of rows, on which the theorems are tried. The failures, the
-- answers of e-com, those of Kafka, and the decoding of a stock message are its parameters.
use layer_backend.Base.{
  ℕ, ◌+◌, String, Bool, true, false, Option, none, some, List, [], ◌∷◌, ◌++◌, ◌≡◌, refl, select,
  length, arith, str_eq,
}
use layer_backend.Base.Int.{ℤ, pos, leb_ℤ}
use layer_backend.Base.Rows
use layer_backend.Base.Rows.{Key}
use layer_backend.Shared.Errors.{Exception}
use layer_backend.Shared.Json.{Json, Fields}
use layer_backend.Exec.{Result, ok, err}
use layer_backend.Platform.{
  Model, Platform, Fetched, Validated, invalid, OutgoingMessage, sort_by, sort_with, limit,
}
use layer_backend.BcEvents.Dto.{BcStockEvent}

unfoldable pub list_model : {K : Type 0} (key : Key K) (R : Type 0) → Model key R
unfolding Rows.lookup Rows.upsert Rows.update_many Rows.total
list_model {K} key R = record {
  Table = List (K × R);
  rows = λ t. t;
  find_unique = Rows.lookup key.same;
  find_many = λ test column n t. limit n (sort_by column (select test t));
  find_ordered = λ test before n t. limit n (sort_with before (select test t));
  count = λ test t. length (select test t);
  sum = Rows.total;
  create = λ k r t. t ++ (k, r) ∷ [];
  create_new =
      λ k r t. elim (Rows.lookup key.same k t) [ none ↦ (1, t ++ (k, r) ∷ []) | some old ↦ (0, t) ];
  upsert = Rows.upsert key.same;
  update_many = Rows.update_many;
  find_unique-rows = λ k t. refl;
  find_many-rows = λ test column n t. refl;
  find_ordered-rows = λ test before n t. refl;
  count-rows = λ test t. refl;
  sum-rows = λ f t. refl;
  rows-create = λ k r t. refl;
  create_new-create = λ k r t. refl;
  rows-upsert = λ k new change t. refl;
  rows-update_many = λ test change t. refl;
}

abbrev pub is_number : Option Json → Bool
is_number (some (Json.number n)) = true
is_number _ = false

pub is_number-number : (v : Option Json) → is_number v ≡ true → (n : ℤ) × (v ≡ some (Json.number n))
is_number-number (some (Json.number n)) h = (n, refl)
is_number-number v h = ground arith

abbrev pub is_text : Option Json → Bool
is_text (some (Json.text s)) = true
is_text _ = false

abbrev pub at_least : ℤ → Option Json → Bool
at_least b (some (Json.number n)) = leb_ℤ b n
at_least b _ = false

-- A decimal is kept as it is written, and there is none of `null`.
abbrev no_decimal_of_null : Option String → Result String
no_decimal_of_null none = err (Exception.failure "[DecimalError] Invalid argument: null")
no_decimal_of_null (some text) = ok text

module _ (fault : ℕ → Option Exception) (fetch : ℕ → String → String → String → Fetched)
    (send : ℕ → String → List OutgoingMessage → Option Exception)
    (stock_dto : Json → Validated BcStockEvent) where
  unfoldable pub simple : Platform
  unfolding list_model
  simple = record {
    region = list_model _ _;
    shop = list_model _ _;
    season = list_model _ _;
    product = list_model _ _;
    product_variant = list_model _ _;
    shop_stock = list_model _ _;
    ecom_stock = list_model _ _;
    task = list_model _ _;
    bc_event = list_model _ _;
    outbox = list_model _ _;
    fault = fault;
    print = λ n. "n";
    now = λ n. 1000 + n;
    uuid = λ n. n;
    text_before = λ a b. true;
    starts_with = str_eq;
    uptime = λ n. n;
    date = λ s. 0;
    decimal = no_decimal_of_null;
    fetch = fetch;
    send = send;
    env = λ name. none;
    product_dto = λ payload. invalid "no product";
    stock_dto = stock_dto;
    is_int = is_number;
    is_string = is_text;
    min = at_least;
    is_int-number = is_number-number;
    min-number = λ b n. refl;
  }

-- Nothing fails, e-com answers that four units are reserved, and Kafka takes every message.
abbrev pub never : ℕ → Option Exception
never n = none

abbrev pub reserved_four : ℕ → String → String → String → Fetched
reserved_four n sku variant_code region_code =
    Fetched.replied true "200 OK"
      (some (Json.object (Fields.field "reserved" (Json.number (pos 4)) Fields.end)))

abbrev pub ecom_down : ℕ → String → String → String → Fetched
ecom_down n sku variant_code region_code = Fetched.rejected "request timed out"

abbrev pub accepted : ℕ → String → List OutgoingMessage → Option Exception
accepted n topic messages = none

abbrev pub kafka_down : ℕ → String → List OutgoingMessage → Option Exception
kafka_down n topic messages = some (Exception.failure "no broker")

abbrev pub no_stock_dto : Json → Validated BcStockEvent
no_stock_dto payload = invalid "no stock message"

abbrev pub up : Platform
up = simple never reserved_four accepted no_stock_dto

abbrev pub down : Platform
down = simple never ecom_down accepted no_stock_dto
