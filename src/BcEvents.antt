-- ===== src/BcEvents.antt =====
-- Ingest of the messages of Business Central: src/modules/bc-events.
pub mod Dto
pub mod Mapping
pub mod Lines
pub mod Inbox
pub mod Ingest
pub mod Controller
pub mod Outcomes
pub mod Settling
pub mod Owing
pub mod Simulator
