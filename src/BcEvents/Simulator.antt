-- ===== src/BcEvents/Simulator.antt =====
-- The injection of messages without a producer: bc-events.simulator.controller.ts, which is there
-- outside production only.
use layer_backend.Base.{
  ℕ, zero, suc, ◌+◌, ◌*◌, ◌<◌, String, Option, some, or_else, ◌<>◌, ◌≡◌, ◌≢◌, ltb, arith,
  Bool-cases, inl, inr, if◌then◌else◌,
}
use layer_backend.Shared.Json.{Json}
use layer_backend.Exec.{Result}
use layer_backend.Platform.{Platform}
use layer_backend.World.{World}
use layer_backend.BcEvents.Inbox.{KafkaMessageMeta}
use layer_backend.BcEvents.Ingest.{IngestOutcome, ingest_product, ingest_stock}

-- The least power of ten from `unit` on that is above `n`: `n < unit + fuel` is enough fuel.
unfoldable pub room : ℕ → ℕ → ℕ → ℕ
room zero unit n = unit
room (suc fuel) unit n = let wider = room fuel (10 * unit) n in if ltb n unit then unit else wider

-- `${Date.now()}${sequence.toString().padStart(4, '0')}`, as the number that it is stored as.
unfoldable pub simulated_offset : ℕ → ℕ → ℕ
simulated_offset time sequence = time * room sequence 10000 sequence + sequence

-- `buildMeta`, with the sequence number that it has moved on to.
unfoldable pub build_meta : String → String → ℕ → ℕ → KafkaMessageMeta
build_meta topic key time sequence = record {
  topic = topic <> "#simulated";
  partition = 0;
  offset = simulated_offset time sequence;
  key = some key;
}

-- `KAFKA_TOPICS.bcProduct` and `KAFKA_TOPICS.bcStock`, from the environment.
abbrev pub product_topic : (String → Option String) → String
product_topic env = or_else (env "KAFKA_TOPIC_BC_PRODUCT") "bc.product.global"

abbrev pub stock_topic : (String → Option String) → String
stock_topic env = or_else (env "KAFKA_TOPIC_BC_STOCK") "bc.stock.unit"

module _ (p : Platform) (env : String → Option String) where
  -- `product` and `stock`, with the counter of the controller. The body was validated, and `sku` is
  -- its SKU.
  unfoldable pub simulate_product :
      Json → String → World p × ℕ → (Result IngestOutcome × World p) × ℕ
  simulate_product body sku (w, sequence) = (
    ingest_product p body (build_meta (product_topic env) sku (p.now w.tick) (suc sequence)) w,
    suc sequence,
  )

  unfoldable pub simulate_stock : Json → String → World p × ℕ → (Result IngestOutcome × World p) × ℕ
  simulate_stock body sku (w, sequence) = (
    ingest_stock p body (build_meta (stock_topic env) sku (p.now w.tick) (suc sequence)) w,
    suc sequence,
  )

-- The room is enough for the number.
lt-room : (fuel unit n : ℕ) → 0 < unit → n < unit + fuel → n < room fuel unit n
unfolding room
lt-room zero unit n h k = omega arith
lt-room (suc fuel) unit n h k = elim (Bool-cases (ltb n unit)) [
  | inl e ↦ rw e (ground arith)
  | inr e ↦ rw e (lt-room fuel (10 * unit) n (omega arith) (ground arith))
]

room_small : (fuel unit n : ℕ) → n < unit → room fuel unit n ≡ unit
unfolding room
room_small zero unit n h = omega arith
room_small (suc fuel) unit n h = ground arith

-- Of the first 9999 messages after a start, no two have the same offset, whenever they are sent.
pub simulated_offset-distinct :
    (t u a b : ℕ) → a < 10000 → b < 10000 → a ≢ b → simulated_offset t a ≢ simulated_offset u b
unfolding simulated_offset
simulated_offset-distinct t u a b ha hb ne e =
    let plain : t * 10000 + a ≡ u * 10000 + b =
      rw (room_small a 10000 a ha, room_small b 10000 b hb) at e in
    ne (omega (arith, plain))
