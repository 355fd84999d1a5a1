-- ===== src/Filters.antt =====
-- The filters of a parsed query, of package codeintel.
pub mod Ids
pub mod Compile
pub mod Resolve
pub mod Sets
pub mod Gathered
pub mod Stands
pub mod Accepts
