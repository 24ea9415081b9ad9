-- ===== src/MySql.antt =====
-- libs/external-db-mysql/src
pub mod Text
pub mod Operators
pub mod Filter
pub mod Clauses
pub mod Statements
pub mod Schema
