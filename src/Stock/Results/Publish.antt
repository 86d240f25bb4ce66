-- ===== src/Stock/Results/Publish.antt =====
-- When a calculation changes what e-com is told: the baseline of the pair, and the outbox.
use layer_backend.Base.{
  ℕ, Bool, true, false, Option, none, some, ◌≡◌, refl, sym, ap, ◌⊎◌, inl, inr, arith, if◌then◌else◌,
  Bool-cases,
}
use layer_backend.Base.Int.{ℤ, ◌≤ℤ◌, leb_ℤ}
use layer_backend.Exec.{Result, ok, err}
use layer_backend.Schema.{EcomStock}
use layer_backend.Platform.{Platform, pair_of_ids}
use layer_backend.Platform.Laws.{find_unique-upsert}
use layer_backend.World.{World, Db}
use layer_backend.Stock.Types.{StockTarget, StockCalculationResult, StockRecalculationResult}
use layer_backend.Stock.Repositories.Tasks.{identity}
use layer_backend.Ecom.Repositories.{new_ecom_stock, revise_ecom_stock}
use layer_backend.EcomApi.{get_reserved_quantity}
use layer_backend.Stock.Recalculate.{should_publish, run}
use layer_backend.Stock.Results.Finish.{finished}
use layer_backend.Stock.Results.Run.{ecom_row, asking, SameResults, RunsTo, run-RunsTo}

module _ (p : Platform) where
  abbrev pub published_of : Option EcomStock → Option ℤ
  published_of none = none
  published_of (some row) = row.published_quantity

  -- The quantity that e-com was last told for a pair (`publishedQuantity`).
  abbrev pub baseline : Db p → ℕ × ℕ → Option ℤ
  baseline db k = published_of (ecom_row p db k)

  -- The baseline of every pair once a result is stored.
  pub baseline-finished :
      (t : StockTarget) (value : StockCalculationResult) (stale publish : Bool) (n : ℕ) (db : Db p)
      (k : ℕ × ℕ)
      → baseline (finished p t value stale publish n db) k ≡ (
          if pair_of_ids.same (identity t) k
          then (if publish then some value.quantity else baseline db k)
          else baseline db k)
  baseline-finished t value stale publish n db k = ground (
    arith,
    find_unique-upsert p.ecom_stock (identity t) k (new_ecom_stock value stale publish (p.now n))
        (revise_ecom_stock value stale publish (p.now n)) db.ecom_stocks,
  )

  -- What a published stale quantity says of the baseline.
  not_above :
      (q : ℤ) (published : Option ℤ)
      → elim published [ none ↦ false | some old ↦ leb_ℤ q old ] ≡ true
      → (old : ℤ) × (published ≡ some old) × (q ≤ℤ old)
  not_above q none h = cc
  not_above q (some old) h = (old, refl, ground arith)

  pub should_publish-stale :
      (q : ℤ) (row : Option EcomStock)
      → should_publish q true row ≡ true
      → (old : ℤ) × (published_of row ≡ some old) × (q ≤ℤ old)
  unfolding should_publish
  should_publish-stale q none h = cc
  should_publish-stale q (some row) h = not_above q row.published_quantity h

  -- What a run may do to the baseline of a pair: nothing, or tell e-com a quantity. Only for its own
  -- pair, and only if e-com has confirmed the reservations, or if the quantity is not above the
  -- baseline that the pair had.
  abbrev pub Told :
      StockTarget → World p → ℕ × ℕ → Result StockRecalculationResult × World p → Type 0
  Told t w k (ok r, w') =
      (baseline w'.db k ≡ baseline w.db k)
      ⊎ ((k ≡ identity t)
          × (baseline w'.db k ≡ some r.value.quantity)
          × (((r.reservations_stale ≡ false)
                × (u : World p) × ((get_reserved_quantity p t u).0 ≡ ok r.value.reserved))
              ⊎ ((r.reservations_stale ≡ true)
                  × (old : ℤ) × (baseline w.db k ≡ some old)
                  × (r.value.quantity ≤ℤ old))))
  Told t w k (err e, w') = baseline w'.db k ≡ baseline w.db k

  own_pair : (t : StockTarget) (k : ℕ × ℕ) → pair_of_ids.same (identity t) k ≡ true → k ≡ identity t
  own_pair t k hit = sym ((pair_of_ids.same_iff (identity t) k).0 hit)

  told :
      (t : StockTarget) (w v : World p) (k : ℕ × ℕ) (value : StockCalculationResult)
      (stale publish : Bool)
      → (row : Option EcomStock) → row ≡ ecom_row p w.db (identity t)
      → publish ≡ should_publish value.quantity stale row
      → baseline v.db k ≡ (
          if pair_of_ids.same (identity t) k
          then (if publish then some value.quantity else baseline w.db k)
          else baseline w.db k)
      → ((stale ≡ false) → (u : World p) × ((get_reserved_quantity p t u).0 ≡ ok value.reserved))
      → Told t w k (
        ok (record {
          value = value;
          region_code = t.region_code;
          reservations_stale = stale;
          published = publish;
        }),
        v,
      )
  told t w v k value stale false row same decided after fresh = inl (ground arith)
  told t w v k value false true row same decided after fresh =
      elim (Bool-cases (pair_of_ids.same (identity t) k)) [
        | inr miss ↦ inl (rw miss at after)
        | inl hit ↦
            let (u, answer) = fresh refl in
            inr (own_pair t k hit, rw hit at after, inl (refl, u, answer))
      ]
  told t w v k value true true row same decided after fresh =
      elim (Bool-cases (pair_of_ids.same (identity t) k)) [
        | inr miss ↦ inl (rw miss at after)
        | inl hit ↦
            let (old, stored, below) = should_publish-stale value.quantity row (sym decided) in
            inr (
              own_pair t k hit,
              rw hit at after,
              inr (refl, old, rw (own_pair t k hit, ← same) stored, below),
            )
      ]

  -- A calculation tells e-com a new quantity only for its own pair, and only where e-com has
  -- confirmed the reservations, or where the quantity is not above the one that e-com holds. The
  -- baseline of every other pair, and of the pair itself otherwise, stays what it was; so it does
  -- when the calculation is rejected. This holds whichever calls of the database fail.
  pub run-Told : (t : StockTarget) (w : World p) (k : ℕ × ℕ) → Told t w k (run p t w)
  run-Told t w k = go (run p t w) (run-RunsTo p t w)
    where
      kept : (v : World p) → SameResults p w.db v.db → baseline v.db k ≡ baseline w.db k
      kept v same = ap (λ t. published_of (p.ecom_stock.find_unique k t)) same.0

      go : (x : Result StockRecalculationResult × World p) → RunsTo p t w x → Told t w k x
      go (ok r, w') (v, same, is_db, is_r, decided, formula, stale, fresh) =
          told t w w' k r.value r.reservations_stale r.published (ecom_row p w.db (identity t)) refl
            decided
            (rw (is_db, ← kept v same)
              (baseline-finished t r.value r.reservations_stale r.published v.tick v.db k))
            (λ no_stale. (asking p w, fresh no_stale))
      go (err e, w') same = kept w' same
