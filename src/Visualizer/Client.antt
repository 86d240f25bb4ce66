-- ===== src/Visualizer/Client.antt =====
-- The calls of the two services: visualizer/src/api/client.ts.
use layer_backend.Base.{
  ℕ, String, Bool, true, false, Option, none, some, List, [], ◌∷◌, ◌<>◌, ◌==◌, if◌then◌else◌,
}
use layer_backend.Shared.Json.{Json, Items, property}
use layer_backend.Visualizer.Types.{ProductCommand, StockCommand}
use layer_backend.Visualizer.Activity.{join}
use layer_backend.Visualizer.EcomSide.{Patch}

-- What is sent as the JSON body.
pub data Content : Type 0 where
  product : ProductCommand → Content
  stock : StockCommand → Content
  patch : Patch → Content

pub record Call : Type 0 where
  pub method : String
  pub url : String
  pub body : Option Content

-- What `fetch` gives: a rejection, or a status, whether it is a success, and the body if it is JSON.
pub data Response : Type 0 where
  rejected : Response
  replied : (status : ℕ) → (success : Bool) → (body : Option Json) → Response

-- What `request` returns or throws: a body, nothing (status 204), an `ApiError`, or the error of a
-- successful reply that is no JSON.
pub data Reading : Type 0 where
  body : Json → Reading
  nothing : Reading
  api_error : (message : String) → (status : ℕ) → Reading
  unreadable : Reading

-- The elements of an array, as `join` writes them, given `String(value)`.
module _ (show : Json → String) where
  abbrev pub element : Json → String
  element Json.null = ""
  element (Json.text s) = s
  element j = show j

  unfoldable pub elements : Items → List String
  elements Items.nil = []
  elements (Items.cons j rest) = element j ∷ elements rest

  -- `detail`: the message of the body, a list of which is joined.
  abbrev pub message_of : Option Json → Option String
  message_of none = none
  message_of (some Json.null) = none
  message_of (some (Json.array messages)) = some (join "; " (elements messages))
  message_of (some (Json.text s)) = some s
  message_of (some j) = some (show j)

  unfoldable pub detail : Option Json → Option String
  detail (some (Json.object fields)) = message_of (property "message" fields)
  detail _ = none

  -- `request`.
  unfoldable pub request : (ℕ → String) → Response → Reading
  request print rejected = api_error "Сервіс не відповідає" 0
  request print (replied status false content) =
      api_error (elim (detail content) [ none ↦ "HTTP " <> print status | some message ↦ message ])
        status
  request print (replied status true content) =
      if status == 204 then nothing else elim content [ none ↦ unreadable | some j ↦ body j ]

abbrev pub layer : String
layer = "/api/layer"

abbrev pub ecom : String
ecom = "/api/ecom"

abbrev pub get : String → Call
get url = record { method = "GET"; url = url; body = none }

-- The functions of `api`, given `encodeURIComponent`.
abbrev pub get_health : Call
get_health = get (layer <> "/health")

abbrev pub get_stand : Call
get_stand = get (layer <> "/pipeline/stand")

abbrev pub get_activity : Call
get_activity = get (layer <> "/pipeline/activity")

abbrev pub get_trace : (String → String) → String → String → Call
get_trace encode sku variant_code =
    get (layer <> "/pipeline/trace/" <> encode sku <> "/" <> encode variant_code)

abbrev pub send_product : ProductCommand → Call
send_product command = record {
  method = "POST";
  url = layer <> "/bc/simulate/product";
  body = some (product command);
}

abbrev pub send_stock : StockCommand → Call
send_stock command = record {
  method = "POST";
  url = layer <> "/bc/simulate/stock";
  body = some (stock command);
}

abbrev pub recalculate : (String → String) → String → String → Call
recalculate encode sku variant_code = record {
  method = "POST";
  url = layer <> "/stock/" <> encode sku <> "/" <> encode variant_code <> "/recalculate";
  body = none;
}

abbrev pub get_ecom_state : Call
get_ecom_state = get (ecom <> "/_state")

abbrev pub set_ecom_state : Patch → Call
set_ecom_state change = record {
  method = "PUT";
  url = ecom <> "/_state";
  body = some (patch change);
}
