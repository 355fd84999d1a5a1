-- ===== src/Identity.antt =====
-- Package identity (internal/identity): roles and permissions.
pub mod Users
pub mod Roles
pub mod Matrix
