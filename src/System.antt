-- ===== src/System.antt =====
-- The service as a whole: what drives it, and what holds after any sequence of its operations.
pub mod Steps
pub mod Keeps
pub mod Baseline
pub mod Nonneg
pub mod Redelivery
pub mod Deliveries
pub mod Flights
