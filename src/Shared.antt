-- ===== src/Shared.antt =====
-- What the modules of the service share: src/shared.
pub mod Errors
pub mod Layers
pub mod Json
pub mod Kafka
pub mod KafkaAdmin
pub mod Filters
pub mod Config
