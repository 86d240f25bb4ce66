-- ===== src/Frames.antt =====
-- Which tables each operation writes, stated once: an operation keeps every predicate on the
-- database that does not depend on those tables.
pub mod Writes
pub mod Tables
pub mod Runs
pub mod Messages
pub mod Ingest
pub mod Workers
pub mod Catalogue
pub use Writes.*
