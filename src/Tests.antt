-- ===== src/Tests.antt =====
-- Runs of the model at inputs of the source's own tests, and the theorems at concrete inputs.
mod Access
mod Accounts
mod Advisories
mod Filters
mod Findings
mod Graph
mod Identity
mod Maintenance
mod Owners
mod Query
mod Scim
mod Search
mod Security
mod Telemetry
