-- ===== src/Advisories.antt =====
-- OSV advisories of internal/dependencies/advisories.go: which versions they affect, and the counters
-- and pages of the findings.
pub mod Events
pub mod Order
pub mod Evaluation
pub mod Loop
pub mod Affects
pub mod Nearest
pub mod Pages
pub mod Findings
pub mod Honest
