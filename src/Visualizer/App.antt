-- ===== src/Visualizer/App.antt =====
-- The state of the page and its handlers: visualizer/src/App.tsx, without its markup. A call that is
-- awaited stands as its outcome.
use layer_backend.Base.{
  ℕ, String, Bool, true, false, Option, none, some, List, [], ◌∷◌, ◌<>◌, ◌==◌, str_eq, or_else,
  if◌then◌else◌,
}
use layer_backend.Visualizer.Types.{
  Stand, Trace, Health, ServiceStatus, EcomState, Calculation, PipelineEvent, OutboxRow,
  StockCommand,
}
use layer_backend.Visualizer.Client.{
  Call, get_trace, send_product, send_stock, recalculate, set_ecom_state,
}
use layer_backend.Visualizer.Conveyor.{Tone}
use layer_backend.Visualizer.EcomSide.{Patch, is_reachable}
use layer_backend.Visualizer.Stand.{Kind, SendRequest, demo}

pub record State : Type 0 where
  pub stand : Option Stand
  pub trace : Option Trace
  pub health : Option Health
  pub ecom : Option EcomState
  pub events : List PipelineEvent
  pub outbox : List OutboxRow
  pub sku : String
  pub variant_code : String
  pub region_code : Option String
  pub pulse_at : Option ℕ
  pub busy : Bool
  pub notice : Option String
  pub offline : Bool
  pub now : ℕ

-- The state at first.
abbrev pub initial : ℕ → State
initial time = record {
  stand = none;
  trace = none;
  health = none;
  ecom = none;
  events = [];
  outbox = [];
  sku = "200202";
  variant_code = "000";
  region_code = none;
  pulse_at = none;
  busy = false;
  notice = none;
  offline = false;
  now = time;
}

-- How an awaited call ends: a value, an `ApiError` with its status, another `Error`, or a thrown
-- value that is none.
pub data Outcome (A : Type 0) : Type 0 where
  value : A → Outcome A
  api_error : (message : String) → (status : ℕ) → Outcome A
  failure : (message : String) → Outcome A
  thrown : Outcome A

-- How the calls of one refresh end.
pub record Replies : Type 0 where
  pub health : Outcome Health
  pub stand : Outcome Stand
  pub activity : Outcome (List PipelineEvent × List OutboxRow)
  pub trace : Outcome Trace
  pub ecom : Outcome EcomState

-- The catch of the trace: an unknown SKU is no failure, and any other error leaves the old trace.
unfoldable pub take_trace : Outcome Trace → Option Trace → Option Trace
take_trace (value trace) old = some trace
take_trace (api_error message status) old = if status == 404 then none else old
take_trace _ old = old

unfoldable pub take_ecom : Outcome EcomState → Option EcomState
take_ecom (value state) = some state
take_ecom _ = none

-- `Promise.all` of the first three calls, and what follows it: one error is enough to be offline.
unfoldable pub refresh_with :
    Outcome Health
    → Outcome Stand
    → Outcome (List PipelineEvent × List OutboxRow)
    → Replies
    → State
    → State
refresh_with (value health) (value stand) (value (events, outbox)) replies s = record s {
  health = some health;
  stand = some stand;
  events = events;
  outbox = outbox;
  offline = false;
  trace = take_trace replies.trace s.trace;
  ecom = take_ecom replies.ecom;
}
refresh_with health stand activity replies s = record s { offline = true }

-- `refresh`.
unfoldable pub refresh : Replies → State → State
refresh replies s = refresh_with replies.health replies.stand replies.activity replies s

-- A round of the timer.
unfoldable pub poll : ℕ → Replies → State → State
poll time replies s = refresh replies (record s { now = time })

-- `trace.calculations.find`.
unfoldable pub find_region : Option String → List Calculation → Option Calculation
find_region none cs = none
find_region (some region) [] = none
find_region (some region) (c ∷ cs) =
    let rest = find_region (some region) cs in if str_eq c.region_code region then some c else rest

-- `calculation`: that of the chosen region, or the first.
unfoldable pub calculation_among : Option String → List Calculation → Option Calculation
calculation_among region [] = none
calculation_among region (c ∷ cs) = some (or_else (find_region region (c ∷ cs)) c)

unfoldable pub calculation_of : Option Trace → Option String → Option Calculation
calculation_of none region = none
calculation_of (some trace) region = calculation_among region trace.calculations

-- The message of a caught value: `none` where the action has resolved.
abbrev pub error_of : {A : Type 0} → Outcome A → Option String
error_of (value a) = none
error_of (api_error message status) = some message
error_of (failure message) = some message
error_of thrown = some "невідома помилка"

-- `act`, with the state that the page has while the action runs, and the one at the end.
unfoldable pub start_act : State → State
start_act s = record s { busy = true; notice = none }

unfoldable pub end_act : {A : Type 0} → String → Outcome A → ℕ → Replies → State → State
end_act label outcome time replies s = elim (error_of outcome) [
  | none ↦
      let after = refresh replies (record s { pulse_at = some time }) in
      record after { busy = false }
  | some message ↦ record s { notice = some (label <> " не вдалося: " <> message); busy = false }
]

-- The body of a message of stock.
unfoldable pub stock_command : SendRequest → StockCommand
stock_command r = record {
  sku = r.sku;
  warehouse_code = r.shop_code;
  variants =
      (record {
        variant_code = r.variant_code;
        barcode_no = none;
        price = none;
        quantity = if r.absolute then r.quantity else none;
        quantity_delta = if r.absolute then none else r.quantity;
      })
      ∷ [];
}

-- `send`: the pair is selected, and the call is made.
unfoldable pub send : SendRequest → State → State × Call
send r s = (
  start_act (record s { sku = r.sku; variant_code = r.variant_code }),
  elim r.kind [
    | Kind.product ↦ send_product (record demo { sku = r.sku })
    | Kind.stock ↦ send_stock (stock_command r)
  ],
)

-- `onRecalculate`, and the `onChange` of the e-com side.
unfoldable pub press_recalculate : (String → String) → State → State × Call
press_recalculate encode s = (start_act s, recalculate encode s.sku s.variant_code)

unfoldable pub change_ecom : Patch → State → State × Call
change_ecom patch s = (start_act s, set_ecom_state patch)

-- The call of the trace, for the pair that is selected.
unfoldable pub trace_call : (String → String) → State → Call
trace_call encode s = get_trace encode s.sku s.variant_code

abbrev pub is_healthy : Option Health → Bool
is_healthy none = false
is_healthy (some h) = elim h.status [
  | ServiceStatus.healthy ↦ true
  | ServiceStatus.degraded ↦ false
]

-- The two dots of the header.
unfoldable pub service_dot : State → Tone × String
service_dot s =
    if s.offline
    then (Tone.stop, "сервіс layer не відповідає")
    else if is_healthy s.health
    then (Tone.flow, "сервіс layer працює")
    else (Tone.warn, "сервіс layer вимагає уваги")

unfoldable pub ecom_dot : State → Tone × String
ecom_dot s = (
  if is_reachable s.ecom then Tone.flow else Tone.stop,
  elim s.ecom [
    | none ↦ "ECOM недосяжний"
    | some e ↦ if is_reachable (some e) then "ECOM відповідає" else "ECOM не відповідає"
  ],
)
