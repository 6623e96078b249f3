-- ===== src/Persist.antt =====
-- persist/memory.go and persist/persist.go: the versioned in-memory store, and one transition inside
-- a store's unit of work.
pub mod Memory
pub mod Commits
pub mod Apply
pub mod Contract
