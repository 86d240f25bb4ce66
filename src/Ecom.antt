-- ===== src/Ecom.antt =====
-- What the service tells e-com: src/modules/ecom. The facade is in `Service`, and the drain of
-- the outbox in `Publisher`.
pub mod Repositories
pub mod Publisher
pub mod Drain
pub mod Latest
pub mod Empties
pub mod Service
