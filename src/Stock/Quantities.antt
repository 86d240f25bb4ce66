-- ===== src/Stock/Quantities.antt =====
-- What a stock message does to the quantities: one write, one line, and the sum of a region.
pub mod Writes
pub mod Nonneg
pub mod Regions
pub mod Ids
pub mod Ledger
pub mod Refines
