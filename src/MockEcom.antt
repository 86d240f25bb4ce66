-- ===== src/MockEcom.antt =====
-- The stand-in for the e-com reservations API of local demos: tools/mock-ecom.mjs.
pub mod State
pub mod Serves
use Prim.Native.String
use layer_backend.Base.{
  ℕ, suc, String, Bool, true, false, Option, none, some, List, [], ◌∷◌, ◌&&◌, ◌||◌, not, str_eq,
  leb, ltb, if◌then◌else◌,
}
use layer_backend.Base.Int.{ℤ, pos, int_eq}
use layer_backend.Shared.Json.{Json, Items, Fields, property}

-- What `readBody` makes of a body.
pub data Body : Type 0 where
  empty malformed : Body
  content : Json → Body

-- What the server reads of a request.
pub record Request : Type 0 where
  pub method : String
  pub pathname : String
  pub body : Body
  pub sku : Option String
  pub variant_code : Option String

-- An answer with its status, one that is only sent after a delay in milliseconds, and an exception
-- that nothing catches, which ends the process.
pub data Reply : Type 0 where
  sent : (status : ℕ) → Json → Reply
  delayed : (ms : ℕ) → (status : ℕ) → Json → Reply
  crash : Reply

-- `SLOW_DELAY_MS`.
abbrev pub slow_delay_ms : ℕ
slow_delay_ms = 30000

-- The state is an object, `{ reserved: 0, mode: 'ok' }` at first.
abbrev pub initial : Fields
initial =
    Fields.field "reserved" (Json.number (pos 0)) (Fields.field "mode" (Json.text "ok") Fields.end)

-- A property is written.
unfoldable pub set_field : String → Json → Fields → Fields
set_field name value Fields.end = Fields.field name value Fields.end
set_field name value (Fields.field key old rest) =
    if str_eq key name
    then Fields.field key value rest
    else Fields.field key old (set_field name value rest)

-- `Object.assign`.
unfoldable pub assign : Fields → Fields → Fields
assign target Fields.end = target
assign target (Fields.field key value rest) = assign (set_field key value target) rest

-- The value of a property of an object that `JSON.parse` has made: of several of one name the last
-- counts.
unfoldable pub last_property : String → Fields → Option Json
last_property name Fields.end = none
last_property name (Fields.field key value rest) = elim (last_property name rest) [
  | some later ↦ some later
  | none ↦ if str_eq key name then some value else none
]

-- `patch.mode` and `patch.reserved`.
abbrev pub member : String → Json → Option Json
member name (Json.object patch) = last_property name patch
member name _ = none

abbrev pub truthy : Option Json → Bool
truthy none = false
truthy (some Json.null) = false
truthy (some (Json.boolean b)) = b
truthy (some (Json.number n)) = not (int_eq n (pos 0))
truthy (some (Json.text s)) = not (str_eq s "")
truthy (some _) = true

-- `modes.includes`.
abbrev pub is_mode : Option Json → Bool
is_mode (some (Json.text s)) =
    str_eq s "ok"
    || (str_eq s "down" || (str_eq s "slow" || (str_eq s "garbage" || str_eq s "coercible")))
is_mode _ = false

-- `patch.reserved !== undefined && !Number.isInteger(patch.reserved)`, negated.
abbrev pub is_integer_or_missing : Option Json → Bool
is_integer_or_missing none = true
is_integer_or_missing (some (Json.number n)) = true
is_integer_or_missing (some _) = false

abbrev pub failure : String → Json
failure message = Json.object (Fields.field "error" (Json.text message) Fields.end)

abbrev pub text_or_null : Option String → Json
text_or_null none = Json.null
text_or_null (some s) = Json.text s

-- The answer `{ sku, variantCode, reserved }`; a state without the property would leave it out.
abbrev pub reservation : Request → Option Json → Json
reservation r reserved = Json.object (
    Fields.field "sku" (text_or_null r.sku) (
      Fields.field "variantCode" (text_or_null r.variant_code)
        (elim reserved [ none ↦ Fields.end | some v ↦ Fields.field "reserved" v Fields.end ])))

-- The `switch` on the mode.
unfoldable pub answer_in : Option Json → Request → Option Json → Reply
answer_in (some (Json.text mode)) r reserved =
    if str_eq mode "down"
    then sent 503 (failure "e-com is unavailable")
    else if str_eq mode "garbage"
    then sent 200 (Json.object (Fields.field "unexpected" (Json.text "shape") Fields.end))
    else if str_eq mode "coercible"
    then sent 200 (Json.object (Fields.field "reserved" (Json.text "") Fields.end))
    else if str_eq mode "slow"
    then delayed slow_delay_ms 200 (reservation r reserved)
    else sent 200 (reservation r reserved)
answer_in mode r reserved = sent 200 (reservation r reserved)

-- The branch of `/api/reservations`.
unfoldable pub answer : Request → Fields → Reply
answer r state = answer_in (property "mode" state) r (property "reserved" state)

-- `${n}` of an index.
module _ (print : ℕ → String) where
  unfoldable pub numbered : ℕ → Items → Fields
  numbered i Items.nil = Fields.end
  numbered i (Items.cons value rest) = Fields.field (print i) value (numbered (suc i) rest)

  unfoldable pub characters : ℕ → String → Fields
  characters i String.[] = Fields.end
  characters i (String.◌∷◌ c rest) =
      Fields.field (print i) (Json.text (String.◌∷◌ c String.[])) (characters (suc i) rest)

  -- The own properties that `Object.assign` copies: those of an object, the elements of an array
  -- under their indices, and the characters of a text (taken as its code points).
  unfoldable pub own_properties : Json → Fields
  own_properties (Json.object patch) = patch
  own_properties (Json.array items) = numbered 0 items
  own_properties (Json.text s) = characters 0 s
  own_properties _ = Fields.end

  -- The checks of a patch, and its assignment.
  unfoldable pub check_patch : Json → Fields → Reply × Fields
  check_patch patch state =
      if truthy (member "mode" patch) && not (is_mode (member "mode" patch))
      then (sent 400 (failure "mode must be one of ok, down, slow, garbage, coercible"), state)
      else if not (is_integer_or_missing (member "reserved" patch))
      then (sent 400 (failure "reserved must be an integer"), state)
      else let next = assign state (own_properties patch) in (sent 200 (Json.object next), next)

  -- `patch.mode` of `null` is a TypeError.
  unfoldable pub apply_patch : Json → Fields → Reply × Fields
  apply_patch Json.null state = (crash, state)
  apply_patch patch state = check_patch patch state

  unfoldable pub put_state : Body → Fields → Reply × Fields
  put_state malformed state = (sent 400 (failure "body must be JSON"), state)
  put_state empty state = apply_patch (Json.object Fields.end) state
  put_state (content patch) state = apply_patch patch state

  -- The callback of `createServer`.
  unfoldable pub handle : Request → Fields → Reply × Fields
  handle r state =
      if str_eq r.method "OPTIONS"
      then (sent 204 (Json.object Fields.end), state)
      else if str_eq r.pathname "/_state"
      then (if str_eq r.method "PUT"
          then put_state r.body state
          else (sent 200 (Json.object state), state))
      else if str_eq r.pathname "/api/reservations"
      then (answer r state, state)
      else (sent 404 (failure "not found"), state)

  -- The state after a series of requests.
  unfoldable pub serve_all : List Request → Fields → Fields
  serve_all [] state = state
  serve_all (r ∷ rs) state = serve_all rs (handle r state).1
