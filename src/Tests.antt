-- ===== src/Tests.antt =====
-- Concrete inputs for the theorems.
mod World
mod Alters
mod Converters
mod Services
mod DataServices
mod Postgres
mod MySql
mod MsSql
mod Router
mod PostgresSchema
