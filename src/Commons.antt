-- ===== src/Commons.antt =====
-- libs/velo-external-db-commons: JavaScript values, the errors that the adapters throw, and the
-- tables of field types and operators.
pub mod Values
pub mod Iso
pub mod Dates
pub mod Runtime
pub mod Text
pub mod Errors
pub mod Effects
pub mod Operators
pub mod Schema
pub mod Tables
