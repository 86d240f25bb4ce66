-- ===== src/Shared/KafkaAdmin/Waits.antt =====
-- How the wait for the leaders of the partitions ends: src/shared/kafka/kafka-admin.service.ts.
use layer_backend.Base.{
  ℕ, zero, suc, ◌+◌, ◌≤◌, String, Bool, true, false, List, ◌≡◌, refl, ◌⊎◌, inl, inr, arith,
}
use layer_backend.Exec.{Result, ok}
use layer_backend.Exec.Ends.{bind-ends}
use layer_backend.Shared.KafkaAdmin.{
  Metadata, Admin, AdminState, is_ready, fetch_metadata, proceed, wait_for_leaders,
}

module _ (admin : Admin) (topics : List String) where
  -- Some answer said that every partition of every topic has a leader.
  abbrev pub Ready : Type 0
  Ready =
      (n : ℕ) × (metadata : Metadata) × (admin.fetch_metadata n topics ≡ ok metadata)
      × (is_ready metadata ≡ true)

  -- How a wait with so many attempts has ended.
  abbrev pub Waits : ℕ → AdminState → Result (Unit {0}) × AdminState → Type 0
  Waits n s (r, s') =
      (s'.fetches ≤ s.fetches + n)
      × (s'.asked ≡ s.asked)
      × (s'.disconnects ≡ s.disconnects)
      × ((r ≡ ok tt)
          → (Ready × (s'.warnings ≡ s.warnings))
            ⊎ ((s'.warnings ≡ suc s.warnings) × (s'.fetches ≡ s.fetches + n)))

  abbrev fetched : AdminState → AdminState
  fetched s = record s { calls = suc s.calls; fetches = suc s.fetches }

  abbrev waited : AdminState → AdminState
  waited s = record s { waits = suc s.waits }

  -- A wait that begins after one more attempt.
  later :
      (n : ℕ) (s : AdminState) (x : Result (Unit {0}) × AdminState)
      → Waits n (waited (fetched s)) x
      → Waits (suc n) s x
  later n s (r, s') (few, same, kept, done) =
      (omega (arith, few), same, kept, λ h. counted (done h))
    where
      counted :
          (Ready × (s'.warnings ≡ s.warnings))
            ⊎ ((s'.warnings ≡ suc s.warnings) × (s'.fetches ≡ suc s.fetches + n))
          → (Ready × (s'.warnings ≡ s.warnings))
            ⊎ ((s'.warnings ≡ suc s.warnings) × (s'.fetches ≡ s.fetches + suc n))
      counted (inl ready) = inl ready
      counted (inr (warned, all)) = inr (warned, omega (arith, all))

  pub wait_for_leaders-Waits :
      (n : ℕ) (s : AdminState) → Waits n s (wait_for_leaders admin n topics s)
  unfolding wait_for_leaders fetch_metadata
  wait_for_leaders-Waits zero s = (omega arith, refl, refl, λ h. inr (refl, omega arith))
  wait_for_leaders-Waits (suc n) s =
      bind-ends (Waits (suc n) s) (fetch_metadata admin topics)
        (λ metadata. proceed (wait_for_leaders admin n topics) (is_ready metadata)) s
        (λ metadata h.
          go metadata h (is_ready metadata) refl (wait_for_leaders-Waits n (waited (fetched s))))
        (λ e h. (omega arith, refl, refl, λ k. cc))
    where
      go :
          (metadata : Metadata)
          → admin.fetch_metadata s.calls topics ≡ ok metadata
          → (b : Bool) → is_ready metadata ≡ b
          → Waits n (waited (fetched s)) (wait_for_leaders admin n topics (waited (fetched s)))
          → Waits (suc n) s (proceed (wait_for_leaders admin n topics) b (fetched s))
      go metadata h true ready rest =
          (omega arith, refl, refl, λ e. inl ((s.calls, metadata, h, ready), refl))
      go metadata h false ready rest =
          later n s (wait_for_leaders admin n topics (waited (fetched s))) rest
