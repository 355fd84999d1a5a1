-- ===== src/Maintenance.antt =====
-- The inventory of owned storage and its cleanup: internal/maintenance/maintenance.go.
pub mod Paths
pub mod Items
pub mod Retention
pub mod Cleanup
pub mod Planned
pub mod Removed
pub mod Executed
pub mod Newest
pub mod Stamps
pub mod Identified
pub mod Previewed
pub mod Artifacts
pub mod Latest
pub mod Loop
