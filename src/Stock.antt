-- ===== src/Stock.antt =====
-- Stock per shop, the calculation, and the retry worker: src/modules/stock.
pub mod Types
pub mod Repositories
pub mod Calculate
pub mod Recalculate
pub mod Apply
pub mod Service
pub mod Controller
pub mod Read
pub mod Retry
pub mod Attempts
pub mod Sweep
pub mod Targets
pub mod Pairs
pub mod Manual
pub mod Owed
pub mod Shops
pub mod Quantities
pub mod Results
