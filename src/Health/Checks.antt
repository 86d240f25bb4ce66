-- ===== src/Health/Checks.antt =====
-- What the health endpoint answers: health.service.ts.
use layer_backend.Base.{
  ℕ, Option, some, none, ◌≡◌, ◌⊎◌, ◌↔◌, ◌<◌, arith, length, select, refl, inl, inr,
}
use layer_backend.Shared.Errors.{Exception}
use layer_backend.Exec.{Result, settled}
use layer_backend.Schema.{RecalculationTaskStatus}
use layer_backend.Platform.{Platform}
use layer_backend.World.{World, Db, call}
use layer_backend.World.Reads.{
  Fails, ReadsTo, Reads, call-ReadsTo, settled-ReadsTo, Reads-from, Reads-query, Reads-bind,
  Reads-pure,
}
use layer_backend.Stock.Repositories.Tasks.{has_status, count_by_status}
use layer_backend.Stock.Service.{count_blocked_calculations}
use layer_backend.Ecom.Repositories as Repositories
use layer_backend.Ecom.Service.{count_stale}
use layer_backend.Health.{
  HealthStatus, DatabaseStatus, ReservationsHealth, HealthResponse, no_backlog, read_backlog, check,
  status_of, report, probed,
}

module _ (p : Platform) where
  -- The tasks of a status, and the results that rest on carried-over reservations.
  abbrev pub tasks_with : RecalculationTaskStatus → Db p → ℕ
  tasks_with status db = length (select (λ r. has_status r.1.status status) (p.task.rows db.tasks))

  abbrev pub stale_results : Db p → ℕ
  stale_results db =
      length (select (λ r. r.1.reservations_stale) (p.ecom_stock.rows db.ecom_stocks))

  -- The counts are those of the tables.
  abbrev pub Counted : Db p → ReservationsHealth → Type 0
  Counted db r =
      (r.pending_recalculations ≡ tasks_with RecalculationTaskStatus.pending db)
      × (r.abandoned_recalculations ≡ tasks_with RecalculationTaskStatus.abandoned db)
      × (r.stale_quantities ≡ stale_results db)

  -- What is answered for a database, the probe having met the given fault.
  abbrev pub Answers : Option Exception → Db p → HealthResponse → Type 0
  Answers (some e) db r =
      (r.database ≡ DatabaseStatus.down)
      × (r.status ≡ HealthStatus.degraded)
      × (r.reservations ≡ no_backlog)
  Answers none db r =
      (r.database ≡ DatabaseStatus.up)
      × ((Counted db r.reservations
            × ((r.status ≡ HealthStatus.degraded)
                ↔ (0 < tasks_with RecalculationTaskStatus.abandoned db)))
          ⊎ ((e : Exception) × Fails p e
              × (r.status ≡ HealthStatus.healthy)
              × (r.reservations ≡ no_backlog)))

  abbrev pub Checks : World p → Result HealthResponse × World p → Type 0
  Checks w = ReadsTo p (Answers (p.fault w.tick) w.db) (λ e. ⊥) w.db

  count_by_status-Reads :
      (status : RecalculationTaskStatus)
      → Reads p (λ db n. n ≡ tasks_with status db) (λ db. Fails p) (count_by_status p status)
  unfolding count_by_status
  count_by_status-Reads status =
      Reads-query p _ _ _ (λ db e h. h) (λ db. p.task.count-rows _ db.tasks)

  count_stale-Reads : Reads p (λ db n. n ≡ stale_results db) (λ db. Fails p) (count_stale p)
  unfolding count_stale Repositories.count_stale
  count_stale-Reads =
      Reads-query p _ _ _ (λ db e h. h) (λ db. p.ecom_stock.count-rows _ db.ecom_stocks)

  abbrev Blocked : Db p → ℕ × ℕ → Type 0
  Blocked db r =
      (r.0 ≡ tasks_with RecalculationTaskStatus.pending db)
      × (r.1 ≡ tasks_with RecalculationTaskStatus.abandoned db)

  count_blocked_calculations-Reads : Reads p Blocked (λ db. Fails p) (count_blocked_calculations p)
  unfolding count_blocked_calculations
  count_blocked_calculations-Reads =
      Reads-bind p _ _ _ _ _ _ (count_by_status-Reads RecalculationTaskStatus.pending) (λ db e h. h)
        λ pending.
          Reads-bind p _ _ _ _ _ _ (count_by_status-Reads RecalculationTaskStatus.abandoned)
            (λ db e h _. h) λ abandoned. Reads-pure p _ _ _ (λ db h k. (k, h))

  read_backlog-Reads : Reads p Counted (λ db. Fails p) (read_backlog p)
  unfolding read_backlog
  read_backlog-Reads =
      Reads-bind p _ _ _ _ _ _ count_blocked_calculations-Reads (λ db e h. h)
        λ blocked.
          Reads-bind p _ _ _ _ _ _ count_stale-Reads (λ db e h _. h)
            λ stale. Reads-pure p _ _ _ (λ db h k. (k.0, k.1, h))

  status_of-degraded :
      (r : ReservationsHealth) (n : ℕ)
      → r.abandoned_recalculations ≡ n
      → (status_of r ≡ HealthStatus.degraded) ↔ (0 < n)
  status_of-degraded r n h = (λ e. ground arith, λ e. ground arith)

  -- The health endpoint never rejects and changes nothing. If the probe of the database fails, it
  -- answers that the database is down and the service degraded, with zero counts. Else the database
  -- is up, and either the counts are those of the tables, and the service is degraded exactly if a
  -- pair is ABANDONED, or a count has failed, and the answer is that all is well, with zero counts.
  pub check-Checks : (w : World p) → Checks w (check p w)
  unfolding check
  check-Checks w =
      settled-ReadsTo p _ (λ e. ⊥) w.db (λ done. p.fault w.tick ≡ none)
        (λ e. p.fault w.tick ≡ some e) (call p) (probed p) w
        (call-ReadsTo p _ _ w (λ e h. h) (λ h. h)) (λ done v calm same. rw calm (backlog v same))
        (λ e v fault same. rw fault ((refl, refl, refl), same))
    where
      backlog :
          (v : World p)
          → v.db ≡ w.db
          → ReadsTo p (Answers none w.db) (λ e. ⊥) w.db (settled (read_backlog p) (report p) v)
      backlog v same =
          settled-ReadsTo p _ (λ e. ⊥) w.db (Counted w.db) (Fails p) (read_backlog p) (report p) v
            (Reads-from p _ _ _ read_backlog-Reads w.db v same)
            (λ r u counted here. ((refl, inl (counted, status_of-degraded r _ counted.1)), here))
            (λ e u fails here. ((refl, inr (e, fails, refl, refl)), here))
