-- ===== src/Stock/Results.antt =====
-- What a calculation leaves in the database: stock.recalculate.service.ts.
pub mod Finish
pub mod Run
pub mod Publish
pub mod Resolves
pub mod Value
