-- ===== src/Web.antt =====
-- libs/velo-external-db-core/src/web and the hooks of its router
pub mod Errors
pub mod Hooks
pub mod Middleware
pub mod Payloads
pub mod Router
pub mod Collections
