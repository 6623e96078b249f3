-- ===== src/Queued.antt =====
-- queued/queued.go: run-to-completion execution. `Cascade` holds the follow-ups of one root, `Run`
-- one root, `Runtime` the queue of roots.
pub mod Cascade
pub mod Run
pub mod Bound
pub mod Runtime
pub mod Scheduler
pub mod Roots
