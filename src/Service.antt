-- ===== src/Service.antt =====
-- libs/velo-external-db-core/src/service
pub mod Storage
pub mod SchemaInformation
pub mod Schema
pub mod Data
pub mod SchemaAwareData
pub mod Indexes
