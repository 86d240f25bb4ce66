-- ===== src/Health.antt =====
-- health.service.ts, with its response of health.response.dto.ts.
pub mod Checks
use layer_backend.Base.{ℕ, Bool, ltb, if◌then◌else◌}
use layer_backend.Exec.{Result, ok, err, pure, gets, settled, ◌>>=◌}
use layer_backend.Platform.{Platform}
use layer_backend.World.{M, call}
use layer_backend.Stock.Service.{count_blocked_calculations}
use layer_backend.Ecom.Service.{count_stale}

pub data HealthStatus : Type 0 where
  healthy degraded : HealthStatus

pub data DatabaseStatus : Type 0 where
  up down : DatabaseStatus

-- `ReservationsHealthDto`.
pub record ReservationsHealth : Type 0 where
  pub pending_recalculations : ℕ
  pub abandoned_recalculations : ℕ
  pub stale_quantities : ℕ

-- `HealthResponseDto`.
pub record HealthResponse : Type 0 where
  pub status : HealthStatus
  pub database : DatabaseStatus
  pub reservations : ReservationsHealth
  pub uptime_seconds : ℕ

abbrev pub no_backlog : ReservationsHealth
no_backlog = record {
  pending_recalculations = 0;
  abandoned_recalculations = 0;
  stale_quantities = 0;
}

-- `blocked.abandoned > 0 ? 'degraded' : 'ok'`.
abbrev pub status_of : ReservationsHealth → HealthStatus
status_of reservations =
    if ltb 0 reservations.abandoned_recalculations
    then HealthStatus.degraded
    else HealthStatus.healthy

module _ (p : Platform) where
  -- The last return of `check`, or its early one.
  abbrev pub answer : HealthStatus → DatabaseStatus → ReservationsHealth → M p HealthResponse
  answer status database reservations = gets λ w. record {
    status = status;
    database = database;
    reservations = reservations;
    uptime_seconds = p.uptime w.tick;
  }

  -- The counts of the backlog.
  unfoldable pub read_backlog : M p ReservationsHealth
  read_backlog = do
    blocked ← count_blocked_calculations p
    stale_quantities ← count_stale p
    pure (record {
      pending_recalculations = blocked.0;
      abandoned_recalculations = blocked.1;
      stale_quantities = stale_quantities;
    })

  -- What follows the counts, by their outcome: without them the initial zeroes stay.
  abbrev pub report : Result ReservationsHealth → M p HealthResponse
  report (ok reservations) = answer (status_of reservations) DatabaseStatus.up reservations
  report (err e) = answer (status_of no_backlog) DatabaseStatus.up no_backlog

  abbrev pub probed : Result (Unit {0}) → M p HealthResponse
  probed (err e) = answer HealthStatus.degraded DatabaseStatus.down no_backlog
  probed (ok done) = settled read_backlog report

  -- `check`: `SELECT 1` first, and nothing is thrown.
  unfoldable pub check : M p HealthResponse
  check = settled (call p) probed
