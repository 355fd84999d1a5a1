-- ===== src/Security.antt =====
-- Package security (internal/security): the administrator's login and sessions, and the request gate.
pub mod Attempts
pub mod Sessions
pub mod Backoff
pub mod Streaks
pub mod Lifetime
pub mod Gate
pub mod Granted
pub mod Resolver
pub mod Suspended
