-- ===== src/System/Flights/Holds.antt =====
-- What each part of the service does to the number that e-com is told for one pair.
use layer_backend.Base.{
  ℕ, String, true, false, Option, none, some, List, [], ◌∷◌, ◌≡◌, sym, subst, ap, ◌∙◌, arith,
  Bool-cases, inl, inr,
}
use layer_backend.Base.Int.{ℤ, ◌≤ℤ◌}
use layer_backend.Exec.{Result, ok, err}
use layer_backend.Platform.{Platform, pair_of_ids}
use layer_backend.World.{World, Db}
use layer_backend.World.Ends.{rethrow-ends}
use layer_backend.World.Keeps.{Keeps, Keeps-both, Keeps-execute, keeps_rules}
use layer_backend.Frames.Ingest.{ignoring}
use layer_backend.Stock.Types.{StockRecalculationResult}
use layer_backend.Stock.Repositories.Tasks.{identity}
use layer_backend.Stock.Recalculate.{should_publish, finish}
use layer_backend.Stock.Results.Finish.{Finishes, finish-Finishes, finished}
use layer_backend.Stock.Results.Run.{ecom_row, SameResults}
use layer_backend.Stock.Results.Publish.{
  published_of, baseline, baseline-finished, should_publish-stale,
}
use layer_backend.Ecom.Repositories.{mark_sent, mark_published, record_failure, among_pairs}
use layer_backend.Ecom.Latest.{latest}
use layer_backend.System.Baseline.{
  Agrees, queued_last-finished, mark_sent-Agrees, record_failure-Agrees, mark_published-Agrees,
  published-stamp,
}
use layer_backend.System.Keeps.{stock_event-Secures}
use layer_backend.System.Flights.{Flight, land, Quiet}
use layer_backend.System.Flights.Keeps.{Quiet-Keeps}

abbrev pub AtMost : ℤ → Option ℤ → Type 0
AtMost limit none = Unit
AtMost limit (some q) = q ≤ℤ limit

module _ (p : Platform) (k : ℕ × ℕ) (limit : ℤ) where
  -- The baseline of the pair is the number that was queued last for it, and not above the limit.
  abbrev pub Holds : Db p → Type 0
  Holds db = Agrees p k db × AtMost limit (baseline p db k)

  -- A run for the pair whose reservations e-com has confirmed came to no more than the limit.
  abbrev pub Confirms : Flight → Type 0
  Confirms f =
      f.stale ≡ false → pair_of_ids.same (identity f.target) k ≡ true → f.value.quantity ≤ℤ limit

  -- A run that is in flight will publish no more than the limit for the pair.
  abbrev pub Carries : Flight → Type 0
  Carries f =
      f.publish ≡ true → pair_of_ids.same (identity f.target) k ≡ true → f.value.quantity ≤ℤ limit

  mark_sent-Holds : (ids : List ℕ) (time : ℕ) → Keeps p Holds (mark_sent p ids time)
  unfolding mark_sent
  mark_sent-Holds ids time =
      Keeps-both p _ (mark_sent-Agrees p k ids time) (Keeps-execute p _ (λ db h. h))

  record_failure-Holds :
      (ids : List ℕ) (error : String) → Keeps p Holds (record_failure p ids error)
  unfolding record_failure
  record_failure-Holds ids error =
      Keeps-both p _ (record_failure-Agrees p k ids error) (Keeps-execute p _ (λ db h. h))

  stamped-AtMost :
      (pairs : List (ℕ × ℕ)) (time : ℕ)
      → Keeps p (λ db. AtMost limit (baseline p db k)) (mark_published p pairs time)
  unfolding mark_published
  stamped-AtMost [] time = search keeps_rules
  stamped-AtMost (x ∷ xs) time = Keeps-execute p _ (λ db h.
      subst (AtMost limit) (sym (published-stamp p k (λ j s. among_pairs (x ∷ xs) j) time db)) h)

  mark_published-Holds :
      (pairs : List (ℕ × ℕ)) (time : ℕ) → Keeps p Holds (mark_published p pairs time)
  mark_published-Holds pairs time =
      Keeps-both p _ (mark_published-Agrees p k pairs time) (stamped-AtMost pairs time)

  pub Quiet-Holds : (w v : World p) → Quiet p w v → Holds w.db → Holds v.db
  Quiet-Holds =
      Quiet-Keeps p Holds mark_sent-Holds record_failure-Holds mark_published-Holds
        (ignoring p (λ db t h. h))
        (stock_event-Secures p (λ db t h. h) (λ db t h. h) (λ db t h. h) (λ db t h. h) (λ db t h. h)
          (λ db t h. h))
        (λ db t h. h) (λ db t h. h) (λ db t h. h) (λ db t h. h)

  -- The same results are the same baseline and the same queue.
  pub carried : (a b : Db p) → SameResults p a b → Holds a → Holds b
  carried a b same h = (
    ap (λ t. published_of p (p.ecom_stock.find_unique k t)) same.0
        ∙ h.0
        ∙ ap (λ t. latest k (p.outbox.rows t)) (sym same.1),
    subst (λ t. AtMost limit (published_of p (p.ecom_stock.find_unique k t))) (sym same.0) h.1,
  )

  finished-Holds :
      (f : Flight) (n : ℕ) (db : Db p)
      → Carries f
      → Holds db
      → Holds (finished p f.target f.value f.stale f.publish n db)
  finished-Holds f n db carries h = ground (
    arith,
    baseline-finished p f.target f.value f.stale f.publish n db k,
    queued_last-finished p k f.target f.value f.stale f.publish n db,
  )

  pub land-Holds : (f : Flight) (w : World p) → Carries f → Holds w.db → Holds (land p f w).1.db
  unfolding land
  land-Holds f w carries h =
      rethrow-ends p (λ x. Holds x.1.db) _ (finish p f.target f.value f.stale f.publish) w
        (λ r e. landed) (λ r e. landed)
    where
      go :
          (x : Result StockRecalculationResult × World p)
          → Finishes p f.target f.value f.stale f.publish w x
          → Holds x.1.db
      go (ok r, v) (is_r, is_db) = rw is_db (finished-Holds f w.tick w.db carries h)
      go (err e, v) same = rw same h

      landed : Holds (finish p f.target f.value f.stale f.publish w).1.db
      landed = go _ (finish-Finishes p f.target f.value f.stale f.publish w)

  le_le : (a b : ℤ) → a ≤ℤ b → b ≤ℤ limit → a ≤ℤ limit
  le_le a b h m = omega arith

  -- A stale number that is not above the baseline is not above the limit either.
  below-AtMost :
      (q old : ℤ) (base : Option ℤ) → base ≡ some old → q ≤ℤ old → AtMost limit base → q ≤ℤ limit
  below-AtMost q old base stored below h = le_le q old below (rw stored at h)

  pub Carries-of :
      (f : Flight) (db : Db p)
      → f.publish ≡ should_publish f.value.quantity f.stale (ecom_row p db (identity f.target))
      → Confirms f
      → AtMost limit (baseline p db k)
      → Carries f
  Carries-of f db decided confirms h published own = elim (Bool-cases f.stale) [
    | inr fresh ↦ confirms fresh own
    | inl stale ↦
        let (old, stored, below) =
          should_publish-stale p f.value.quantity (ecom_row p db (identity f.target))
            (sym (decided_stale stale) ∙ published) in
        below-AtMost f.value.quantity old _
          (ap (baseline p db) (sym ((pair_of_ids.same_iff (identity f.target) k).0 own)) ∙ stored)
          below h
  ]
    where
      decided_stale :
          f.stale ≡ true
          → f.publish ≡ should_publish f.value.quantity true (ecom_row p db (identity f.target))
      decided_stale stale =
          decided
          ∙ ap (λ s. should_publish f.value.quantity s (ecom_row p db (identity f.target))) stale
