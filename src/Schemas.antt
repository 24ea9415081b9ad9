-- ===== src/Schemas.antt =====
-- libs/velo-external-db-core/src/utils/schema_utils.ts
pub mod FieldTypes
pub mod Operations
pub mod Columns
