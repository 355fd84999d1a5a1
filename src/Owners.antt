-- ===== src/Owners.antt =====
-- Who owns the files of a repository by its CODEOWNERS file, and the owner filters of a search:
-- internal/graph/codeowners.go and internal/codeintel/ownership.go.
pub mod Patterns
pub mod Rules
pub mod Globs
pub mod Spelled
pub mod Matches
pub mod Last
pub mod Parsed
pub mod Named
pub mod Filter
pub mod Kept
pub mod Places
