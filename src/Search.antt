-- ===== src/Search.antt =====
-- Package search (internal/search/coordinator.go): the queue of derived indexes, and the indexing
-- of pending repositories.
pub mod Queue
pub mod Wakeups
pub mod Progress
pub mod Tracked
pub mod Indexing
pub mod Rounds
pub mod Ends
