-- ===== src/Statechart.antt =====
-- statechart: hierarchical charts and the Instances that execute them.
pub mod Shape
pub mod Lineage
pub mod Ancestor
pub mod Paths
pub mod Chart
pub mod Lifecycle
pub mod Plan
pub mod Commit
pub mod Select
pub mod Position
pub mod Offers
