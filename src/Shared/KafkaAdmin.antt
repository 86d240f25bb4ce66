-- ===== src/Shared/KafkaAdmin.antt =====
-- The topics that the service uses, made before anything subscribes to them:
-- src/shared/kafka/kafka-admin.service.ts and constants/kafka-topics.constant.ts.
mod Waits
pub mod Ensures
use layer_backend.Base.{
  ℕ, zero, suc, String, Bool, true, false, not, ◌&&◌, ◌||◌, Option, none, some, List, [], ◌∷◌, ◌++◌,
  str_eq, or_else, select, if◌then◌else◌,
}
use layer_backend.Base.Int.{ℤ, pos, leb_ℤ}
use layer_backend.Shared.Errors.{Exception, message_of}
use layer_backend.Exec.{Result, ok, err, Exec, pure, throw, lift, modify, settled, ◌>>=◌, ◌>>◌}

-- The leader of each partition of each topic (`fetchTopicMetadata`).
abbrev pub Metadata : Type 0
Metadata = List (List ℤ)

-- The admin client of kafkajs: what its `n`-th call gives. `name_of` is the `name` of an error, and
-- `says_already_exists` the test `/already exists/i`.
pub record Admin : Type 0 where
  pub connect : ℕ → Option Exception
  pub list_topics : ℕ → Result (List String)
  pub create_topics : ℕ → List String → Option Exception
  pub fetch_metadata : ℕ → List String → Result Metadata
  pub disconnect : ℕ → Option Exception
  pub name_of : Exception → String
  pub says_already_exists : String → Bool

-- What the calls leave behind: how many were made, the topics asked for in each creation, how often
-- the metadata was read, how often the method waited, warned, and disconnected.
pub record AdminState : Type 0 where
  pub calls : ℕ
  pub asked : List (List String)
  pub fetches : ℕ
  pub waits : ℕ
  pub warnings : ℕ
  pub disconnects : ℕ

-- `Object.values(KAFKA_TOPICS)`, from the environment.
unfoldable pub kafka_topics : (String → Option String) → List String
kafka_topics env =
    or_else (env "KAFKA_TOPIC_BC_PRODUCT") "bc.product.global"
    ∷ or_else (env "KAFKA_TOPIC_BC_STOCK") "bc.stock.unit"
    ∷ or_else (env "KAFKA_TOPIC_ECOM_STOCK") "ecom.stock.updated"
    ∷ []

-- `LEADER_ATTEMPTS`.
abbrev pub leader_attempts : ℕ
leader_attempts = 20

abbrev pub includes : List String → String → Bool
includes [] topic = false
includes (x ∷ xs) topic = str_eq x topic || includes xs topic

-- `filter((topic) => !existing.has(topic))`.
abbrev pub missing_of : List String → List String → List String
missing_of topics existing = select (λ topic. not (includes existing topic)) topics

abbrev pub have_leaders : List ℤ → Bool
have_leaders [] = true
have_leaders (leader ∷ rest) = leb_ℤ (pos 0) leader && have_leaders rest

-- `partitions.length > 0 && partitions.every((partition) => partition.leader >= 0)`.
abbrev pub topic_ready : List ℤ → Bool
topic_ready [] = false
topic_ready (leader ∷ rest) = have_leaders (leader ∷ rest)

-- `metadata.topics.every(…)`.
abbrev pub is_ready : Metadata → Bool
is_ready [] = true
is_ready (topic ∷ rest) = topic_ready topic && is_ready rest

-- A call that gives nothing but its error.
abbrev pub answered {ℓ} : {S : Type ℓ} → Option Exception → Exec S (Unit {ℓ})
answered none = pure tt
answered (some e) = throw e

-- What follows the metadata: the end, or a wait and the next attempt.
abbrev pub proceed : Exec AdminState (Unit {0}) → Bool → Exec AdminState (Unit {0})
proceed next true = pure tt
proceed next false = modify (λ s. record s { waits = suc s.waits }) >> next

module _ (admin : Admin) where
  -- `isAlreadyExists`.
  abbrev pub is_already_exists : Exception → Bool
  is_already_exists e =
      str_eq (admin.name_of e) "KafkaJSTopicAlreadyExists"
      || admin.says_already_exists (message_of e)

  unfoldable pub connect : Exec AdminState (Unit {0})
  connect s = answered (admin.connect s.calls) (record s { calls = suc s.calls })

  unfoldable pub list_topics : Exec AdminState (List String)
  list_topics s = lift (admin.list_topics s.calls) (record s { calls = suc s.calls })

  -- The partitions and the replication factor of each new topic are constants.
  unfoldable pub create_topics : List String → Exec AdminState (Unit {0})
  create_topics missing s =
      answered (admin.create_topics s.calls missing)
        (record s { calls = suc s.calls; asked = s.asked ++ missing ∷ [] })

  unfoldable pub fetch_metadata : List String → Exec AdminState Metadata
  fetch_metadata topics s =
      lift (admin.fetch_metadata s.calls topics)
        (record s { calls = suc s.calls; fetches = suc s.fetches })

  unfoldable pub disconnect : Exec AdminState (Unit {0})
  disconnect s =
      answered (admin.disconnect s.calls)
        (record s { calls = suc s.calls; disconnects = suc s.disconnects })

  -- The `catch` of the creation: another instance may have won the race.
  unfoldable pub after_creation : Result (Unit {0}) → Exec AdminState (Unit {0})
  after_creation (ok done) = pure tt
  after_creation (err e) = if is_already_exists e then pure tt else throw e

  -- `if (missing.length > 0)`.
  unfoldable pub create_missing : List String → Exec AdminState (Unit {0})
  create_missing [] = pure tt
  create_missing (topic ∷ topics) = settled (create_topics (topic ∷ topics)) after_creation

  -- `waitForLeaders` with the attempts that are left.
  unfoldable pub wait_for_leaders : ℕ → List String → Exec AdminState (Unit {0})
  wait_for_leaders zero topics = modify λ s. record s { warnings = suc s.warnings }
  wait_for_leaders (suc n) topics =
      let next = wait_for_leaders n topics in
      fetch_metadata topics >>= λ metadata. proceed next (is_ready metadata)

  -- The `try` of `ensureTopics`.
  unfoldable pub prepare : List String → Exec AdminState (Unit {0})
  prepare topics = do
    connect
    existing ← list_topics
    create_missing (missing_of topics existing)
    wait_for_leaders leader_attempts topics

  -- `ensureTopics`: the client is disconnected whatever has happened, and an error of that one is
  -- what is thrown.
  unfoldable pub ensure_topics : List String → Exec AdminState (Unit {0})
  ensure_topics topics = settled (prepare topics) λ r. disconnect >>= λ done. lift r
