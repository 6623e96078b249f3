-- ===== src/Instance.antt =====
-- instance.go: the fail-fast owner of one state. `Defs` holds its operations, `Fire` the results of
-- one call, `Flight` the interleavings of many.
pub mod Defs
pub mod Fire
pub mod Flight
