-- ===== src/Converters.antt =====
-- libs/velo-external-db-core/src/converters
pub mod Filter
pub mod Validation
pub mod Items
pub mod WixData
pub mod Aggregation
