-- ===== src/Tests/Data.antt =====
-- One shop with two units of a shirt, on a platform whose tables are lists.
use layer_backend.Base.{ℕ, String, true, false, Option, none, some, List, [], ◌∷◌}
use layer_backend.Base.Int.{pos, negsuc}
use layer_backend.Shared.Errors.{Exception}
use layer_backend.Shared.Json.{Json}
use layer_backend.Schema.{OutboxStatus, BcEventType, BcEventStatus}
use layer_backend.Platform.{Platform, Validated, valid}
use layer_backend.Platform.Simple.{
  list_model, simple, never, reserved_four, ecom_down, accepted, kafka_down,
}
use layer_backend.Base.{map, ltb, if◌then◌else◌}
use layer_backend.Exec.{ok}
use layer_backend.Shared.KafkaAdmin.{Admin, AdminState}
use layer_backend.Shared.Config.{Environment, EnvironmentVariables}
use layer_backend.Shared.Config.Lists.{Item}
use layer_backend.Ecom.Empties.{Accepts}
use layer_backend.World.{World}
use layer_backend.Stock.Types.{
  StockTarget, StockLine, StockCalculationInput, StockCalculationResult, StockUpdateCommand,
}
use layer_backend.BcEvents.Dto.{Reported, BcStockEvent}
use layer_backend.BcEvents.Inbox.{KafkaMessageMeta}
use layer_backend.BcEvents.Controller.{KafkaContext}
use layer_backend.System.Redelivery.{IsSeen}
use layer_backend.Base.{refl}
use layer_backend.Base.Rows
use layer_backend.System.Flights.{Flight}
use layer_backend.Platform.{Fetched}
use layer_backend.Shared.Json.{Fields}
use layer_backend.MockEcom.{Request, Body, answer, serve_all, initial}
use layer_backend.MockEcom.Serves.{fetched, asked}

-- A message that takes three units of the shirt off the shop.
abbrev pub shirt_event : BcStockEvent
shirt_event = record {
  sku = "shirt";
  warehouse_code = none;
  variants =
      (record {
        variant_code = "blue";
        barcode_no = none;
        price = none;
        quantity = Reported.undefined;
        quantity_delta = Reported.undefined;
        warehouses = some (
            (record {
              warehouse_code = "kyiv";
              quantity = Reported.undefined;
              quantity_delta = Reported.value (negsuc 2);
            })
            ∷ []);
      })
      ∷ [];
}

abbrev pub decode : Json → Validated BcStockEvent
decode payload = valid shirt_event

abbrev pub open_shop : Platform
open_shop = simple never reserved_four accepted decode

-- e-com and Kafka are down.
abbrev pub cut_off : Platform
cut_off = simple never ecom_down kafka_down decode

abbrev pub message : KafkaMessageMeta
message = record { topic = "bc.stock.updated"; partition = 0; offset = 7; key = none }

abbrev pub shirt : StockTarget
shirt = record {
  variant_id = 1;
  sku = "shirt";
  variant_code = "blue";
  region_id = 2;
  region_code = "UA";
}

abbrev pub three_off : StockLine
three_off = record {
  variant_code = "blue";
  shop_code = "kyiv";
  quantity = none;
  quantity_delta = some (negsuc 2);
}

abbrev pub two_lines : StockUpdateCommand
two_lines = record { sku = "shirt"; lines = three_off ∷ three_off ∷ [] }

abbrev pub shirt_value : StockCalculationResult
shirt_value = record {
  shops_total = pos 9;
  safety_buffer = pos 1;
  reserved = pos 4;
  quantity = pos 4;
}

abbrev pub shirt_input : StockCalculationInput
shirt_input = record { shops_total = pos 9; safety_buffer = pos 1; reserved = pos 4 }

abbrev pub scarce_input : StockCalculationInput
scarce_input = record { shops_total = pos 3; safety_buffer = pos 2; reserved = pos 4 }

module _ (fetch : ℕ → String → String → String → layer_backend.Platform.Fetched)
    (send : ℕ → String → List layer_backend.Platform.OutgoingMessage → Option Exception) where
  -- One shop of the region with two units, and one number that waits in the outbox.
  abbrev pub stocked : World (simple never fetch send decode)
  unfolding simple list_model
  stocked = record {
    db = record {
      regions = ("UA", record { id = 2; name = "Ukraine"; safety_buffer = pos 1 }) ∷ [];
      shops = ("kyiv", record { name = none; region_id = 2; included_in_ecom = true }) ∷ [];
      seasons = [];
      products = [];
      variants =
          (("shirt", "blue"), record { id = 1; barcode_no = none; color = none; size = none }) ∷ [];
      shop_stocks = ((1, "kyiv"), record { quantity = pos 2; reported_at = 0 }) ∷ [];
      ecom_stocks = [];
      tasks = [];
      events = [];
      outbox =
          (
            5,
            record {
              sku = "shirt";
              variant_code = "blue";
              variant_id = 1;
              region_id = 2;
              region_code = "UA";
              quantity = pos 4;
              status = OutboxStatus.pending;
              attempts = 0;
              last_error = none;
              created_at = 3;
              sent_at = none;
            },
          )
          ∷ [];
    };
    tick = 0;
    sent = [];
    running = false;
    draining = false;
    scheduled = 0;
  }

abbrev pub in_stock : World open_shop
in_stock = stocked reserved_four accepted

abbrev pub offline : World cut_off
offline = stocked ecom_down kafka_down

abbrev pub delivery : KafkaContext
delivery = record { topic = "bc.stock.updated"; partition = 0; offset = 7; key = none }

-- The shop once the message is in its inbox.
abbrev pub informed_shop : World open_shop
unfolding simple list_model
informed_shop = record in_stock {
  db = record in_stock.db {
    events =
        (
          (message.topic, (message.partition, message.offset)),
          record {
            type = BcEventType.stock;
            status = BcEventStatus.processed;
            key = none;
            payload = Json.null;
            received_at = 1;
            processed_at = some 2;
            error = none;
          },
        )
        ∷ [];
  };
}

pub informed_shop-IsSeen : IsSeen open_shop message informed_shop.db
unfolding simple list_model Rows.lookup
informed_shop-IsSeen = refl

abbrev pub no_env : String → Option String
no_env name = none

-- A broker without topics, whose only partition of each has a leader from the fifth call on.
abbrev pub slow_broker : Admin
slow_broker = record {
  connect = λ n. none;
  list_topics = λ n. ok [];
  create_topics = λ n topics. none;
  fetch_metadata =
      λ n topics. ok (map (λ topic. (if ltb n 5 then negsuc 0 else pos 1) ∷ []) topics);
  disconnect = λ n. none;
  name_of = λ e. "Error";
  says_already_exists = λ s. false;
}

abbrev pub untouched : AdminState
untouched = record { calls = 0; asked = []; fetches = 0; waits = 0; warnings = 0; disconnects = 0 }

abbrev pub deployment : EnvironmentVariables
deployment = record {
  node_env = Environment.test;
  port = 3000;
  log_level = "info";
  database_url = "postgres";
  kafka_client_id = "layer-backend";
  kafka_brokers = "localhost:9092";
  kafka_consumer_group = "layer-backend";
  kafka_topic_bc_product = "bc.product.global";
  kafka_topic_bc_stock = "bc.stock.unit";
  kafka_topic_ecom_stock = "ecom.stock.updated";
  ecom_api_url = "http://localhost";
  ecom_api_token = none;
  cors_origins = "*";
  swagger_enabled = true;
  swagger_path = "docs";
}

-- "a1" and " b2".
abbrev pub two_brokers : List Item
two_brokers =
    record { before = []; entry = "a" ∷ "1" ∷ []; after = [] }
    ∷ record { before = " " ∷ []; entry = "b" ∷ "2" ∷ []; after = [] }
    ∷ []

pub takes_all : Accepts open_shop
unfolding simple
takes_all n topic messages = refl

module _ (fetch : ℕ → String → String → String → Fetched)
    (send : ℕ → String → List layer_backend.Platform.OutgoingMessage → Option Exception) where
  -- The shop once the number in the outbox is the baseline of the shirt.
  abbrev pub told : World (simple never fetch send decode)
  unfolding simple list_model
  told = record (stocked fetch send) {
    db = record (stocked fetch send).db {
      ecom_stocks =
          (
            (1, 2),
            record {
              quantity = pos 4;
              shops_total = pos 9;
              safety_buffer = pos 1;
              reserved = pos 4;
              reservations_stale = false;
              published_quantity = some (pos 4);
              calculated_at = 3;
              published_at = none;
            },
          )
          ∷ [];
    };
  }

abbrev pub told_shop : World open_shop
told_shop = told reserved_four accepted

-- What a run for the shirt has decided there.
abbrev pub shirt_flight : Flight
shirt_flight = record {
  target = shirt;
  value = record { shops_total = pos 2; safety_buffer = pos 1; reserved = pos 4; quantity = pos 0 };
  stale = false;
  publish = true;
}

-- A stand-in for e-com that was told of three reserved units, and a service that reaches it.
abbrev pub three_reserved : List Request
three_reserved =
    (record {
      method = "PUT";
      pathname = "/_state";
      body = Body.content (Json.object (Fields.field "reserved" (Json.number (pos 3)) Fields.end));
      sku = none;
      variant_code = none;
    })
    ∷ []

abbrev pub ok_line : ℕ → String
ok_line status = "200 OK"

abbrev pub index_name : ℕ → String
index_name i = "0"

abbrev pub mock_fetch : ℕ → String → String → String → Fetched
mock_fetch n sku variant_code region_code =
    fetched ok_line (answer (asked sku variant_code) (serve_all index_name three_reserved initial))

abbrev pub mocked : Platform
mocked = simple never mock_fetch accepted decode

abbrev pub mocked_shop : World mocked
mocked_shop = stocked mock_fetch accepted

abbrev pub print_plainly : ℕ → String
print_plainly n = "n"

-- A message whose variant nests an empty list of warehouses.
abbrev pub hollow_event : BcStockEvent
hollow_event = record {
  sku = "shirt";
  warehouse_code = some "kyiv";
  variants =
      (record {
        variant_code = "blue";
        barcode_no = none;
        price = none;
        quantity = Reported.value (pos 5);
        quantity_delta = Reported.undefined;
        warehouses = some [];
      })
      ∷ [];
}
