-- ===== src/Supervised.antt =====
-- supervised: strict machines, and the Supervisor that executes them one operation at a time.
pub mod Types
pub mod Sections
pub mod Results
pub mod Machine
pub mod Admission
pub mod Outcomes
pub mod Decisions
pub mod Records
pub mod History
pub mod Declarations
pub mod Snapshots
pub mod DeclaredRows
pub mod Compile
pub mod Declared
pub mod Answering
pub mod Reachable
pub mod Strict
pub mod Delivery
pub mod Calls
pub mod Decide
pub mod Journaling
pub mod Issuing
pub mod Passing
pub mod Committed
pub mod Issued
pub mod Runs
pub mod Sound
pub mod Settling
pub mod Latching
pub mod Closing
pub mod Admitting
pub mod Framing
pub mod Touching
pub mod Tripping
pub mod Invariant
pub mod Restoring
pub mod Doubts
pub mod Roundtrip
pub mod Steady
pub mod Follows
