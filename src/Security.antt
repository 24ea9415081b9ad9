-- ===== src/Security.antt =====
-- libs/external-db-security/src/services/role_authorization.ts
pub mod Roles
