-- ===== src/Keys.antt =====
-- Keys of Go maps (internal/keycheck/keycheck.go) and Go maps. The modules below: `Defs` holds
-- keys and keycheck's checks, `Maps` the maps.
pub mod Defs
pub mod Maps
pub mod Walk
