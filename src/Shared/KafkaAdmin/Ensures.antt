-- ===== src/Shared/KafkaAdmin/Ensures.antt =====
-- What the preparation of the topics does: src/shared/kafka/kafka-admin.service.ts.
use layer_backend.Base.{ℕ, suc, ◌+◌, ◌≤◌, String, List, [], ◌∷◌, ◌++◌, ◌≡◌, ◌⊎◌}
use layer_backend.Exec.{Result, ok}
use layer_backend.Shared.KafkaAdmin.{Admin, AdminState, missing_of, list_topics}
use layer_backend.Shared.KafkaAdmin.Waits.{Ready, Waits}

module _ (admin : Admin) (topics : List String) where
  -- The requests once the missing topics are asked for, in one request if there are any.
  abbrev pub asked_with : List (List String) → List String → List (List String)
  asked_with asked [] = asked
  asked_with asked (t ∷ ts) = asked ++ (t ∷ ts) ∷ []

  -- The missing topics were asked for, as the broker had listed its own.
  abbrev pub Asks : AdminState → AdminState → Type 0
  Asks s s' =
      (n : ℕ) × (existing : List String) × (admin.list_topics n ≡ ok existing)
      × (s'.asked ≡ asked_with s.asked (missing_of topics existing))

  abbrev Creates : List String → AdminState → Result (Unit {0}) × AdminState → Type 0
  Creates missing s (r, s') =
      (s'.fetches ≡ s.fetches)
      × (s'.disconnects ≡ s.disconnects)
      × (s'.warnings ≡ s.warnings)
      × (s'.asked ≡ asked_with s.asked missing)

  -- How a preparation has ended that has disconnected so many times.
  abbrev pub Prepares : ℕ → AdminState → Result (Unit {0}) × AdminState → Type 0
  Prepares n s (r, s') =
      (s'.fetches ≤ s.fetches + 20)
      × (s'.disconnects ≡ s.disconnects + n)
      × ((s'.asked ≡ s.asked) ⊎ Asks s s')
      × ((r ≡ ok tt)
          → Asks s s'
            × ((Ready admin topics × (s'.warnings ≡ s.warnings))
                ⊎ ((s'.warnings ≡ suc s.warnings) × (s'.fetches ≡ s.fetches + 20))))
