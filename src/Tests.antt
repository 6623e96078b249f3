-- ===== src/Tests.antt =====
-- Runs of the model at concrete inputs, and the theorems at inputs that meet their hypotheses.
mod Data
mod Flat
mod Stores
mod Queues
mod Charts
mod Walks
mod Supervision
mod Definitions
mod Calls
