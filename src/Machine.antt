-- ===== src/Machine.antt =====
-- statemachine.go: the compiled transition table. `Defs` holds the table, Compile, Next, fire and
-- Permitted; `Compile` what a compiled table holds; `Select` how a row is chosen.
pub mod Defs
pub mod Table
pub mod Compile
pub mod Select
pub mod Refine
