-- ===== src/Scim.antt =====
-- The SCIM provisioning service of internal/scim/scim.go.
pub mod Resources
pub mod Members
pub mod Patches
pub mod Listing
pub mod Numbers
pub mod Pages
pub mod Membership
pub mod Paths
pub mod Changes
pub mod UserChanges
