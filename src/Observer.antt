-- ===== src/Observer.antt =====
-- internal/observer/delivery.go, observer.go and observe.go: observations of committed moves, and
-- their delivery with contained failures. `Defs` holds the operations, `Delivery` their theorems.
pub mod Defs
pub mod Delivery
