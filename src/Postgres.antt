-- ===== src/Postgres.antt =====
-- libs/external-db-postgres/src
pub mod Sql
pub mod Operators
pub mod Filter
pub mod Clauses
pub mod Statements
pub mod Schema
pub mod Provider
