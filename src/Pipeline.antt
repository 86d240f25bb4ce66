-- ===== src/Pipeline.antt =====
-- The view of the whole flow: src/modules/pipeline.
pub mod Response
pub mod Repository
pub mod Service
pub mod Traces
pub mod Shown
pub mod Sums
pub mod Withheld
