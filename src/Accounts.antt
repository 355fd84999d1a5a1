-- ===== src/Accounts.antt =====
-- The identity store of internal/store/identity.go.
pub mod Tables
pub mod Resolve
pub mod Effective
pub mod Refused
