-- ===== src/MsSql.antt =====
-- libs/external-db-mssql/src
pub mod Sql
pub mod Filter
pub mod Statements
