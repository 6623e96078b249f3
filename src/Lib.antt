-- ===== src/Lib.antt =====
-- Verification of the statemachine module: finite state machines as compiled transition tables, and
-- the owners of state that execute them.
--
-- The parts of the program, and where they are modelled:
--
--   statemachine.go       Machine: Compile makes a table of rows a Machine (compile), Next and
--                         Permitted ask it (next, permitted), and fire runs the selected effect.
--                         Guards, effects and data are functions on contexts and on a world W that
--                         they read and change; a Guard only reads it. Machine/Table and
--                         Machine/Select compare the Machine with the table it was compiled from,
--                         Machine/Compile is about what Compile accepts, Machine/Refine states the
--                         table-level reading of Next, fire and Permitted.
--   internal/keycheck     Keys/Defs: what Go's == and the checks promise for a type of keys, as an
--                         interface. Keys/Walk: the walks of keycheck over Go types and what they
--                         say of values. Keys/Maps: Go maps as association lists.
--   observe.go and        Observer: observations, their delivery in order, and the error that joins
--   internal/observer     the failures of callbacks.
--   instance.go           Instance: the two critical sections of Fire and its deferred one (begin,
--                         commit, finish), a call that nothing overlaps (fire_instance, which uses
--                         Machine's fire and Observer's deliver), and calls that overlap (Flight).
--   persist               Persist/Memory is memory.go, Persist/Commits its interleaved updates, and
--                         Persist/Apply the apply of persist.go, which fires a fresh Instance inside
--                         whatever a store does. Persist/Contract is about its contract checks.
--   queued/queued.go      Queued/Cascade and Queued/Run: a root with its follow-ups, each of which
--                         fires the Runtime's Instance. Queued/Bound: the loop ends. Queued/Runtime,
--                         Queued/Scheduler and Queued/Roots: the scheduler's sections, and many
--                         callers of Fire with the drain goroutine.
--   statechart            Statechart/Shape: nodes, common ancestors and paths (position.go), with
--                         Lineage, Ancestor and Paths about them; Statechart/Chart: the selection of
--                         a row (statechart.go), with Select about it; Statechart/Position:
--                         positions and Permitted, with Offers about that; Statechart/Lifecycle: the
--                         actions of a transition and Fire, with Plan and Commit about them. Its
--                         observations go through Observer's deliver.
--   supervised            Supervised/Types and Supervised/Machine: the data. Supervised/Sections and
--                         Supervised/Results: what the sections under a Supervisor's lock share;
--                         Supervised/Admission, Supervised/Outcomes, Supervised/Decisions and
--                         Supervised/Delivery: those sections (execution.go, delivery.go).
--                         Supervised/Runs: their interleaving, as steps of one Supervisor with the call
--                         under way; Supervised/Sound is the invariant of it, which Settling, Latching,
--                         Closing, Admitting, Framing, Touching and Tripping are about, section by
--                         section, and Invariant as a whole. Steady and Follows: what moves the
--                         state. Supervised/Calls, Decide, Journaling and Issuing: issueDecision and
--                         verifyDecision as functions on a world, with their callbacks; Passing,
--                         Committed and Issued are about them. Supervised/Records and History: the records (record.go).
--                         Supervised/Snapshots, Restoring, Doubts and Roundtrip: snapshots.
--                         Supervised/Declarations, DeclaredRows and Compile: Compile of definition.go,
--                         pass by pass, with its defects as data in their order; Declared,
--                         Answering, Reachable and Strict are about it. Its search for reachable states runs on one round more than
--                         there are rows as fuel.
--   Errors                Go's errors as trees of sentinels with errors.Is and errors.Join, panics
--                         and runtime.Goexit as values.
--
-- Contexts, stores and callbacks are code outside the repository, and parameters here: a context's
-- Err is a function of a world, and a store is any finite strategy that calls the step it is given,
-- one call behind the other: of overlapping calls the code lets one through and waits for it.
-- Two values that Go's == identifies are one value of the model, and a value that is not equal to
-- itself is one on which the test answers false. Sequence numbers and revisions are taken modulo
-- 2 ^ 64, but those of a Supervisor stop at 2 ^ 64 - 1, as it does. Limits that are not positive are 0.
-- The identities of a Supervisor are numbers, of which 0 is the empty text; a section reads its clock
-- once, and 0 is the zero time; timers and contexts are left to their environment; a pending change
-- names its row by the row's identity, in which the rows of a Machine differ; and a fault record has a number in place
-- of its address. The loop of a root runs on fuel; as many rounds as the
-- event limit are enough, because every event but the first was accepted by Enqueue, which counts
-- it against that limit. The loops over a hierarchy run on the depth of a node as fuel, which is
-- enough where depths count ancestors.
--
-- Not modelled: the texts of errors, times and stacks in observations and panics, observers with
-- timers, the entry checks of queued Fire, the compilation of charts (the theorems on
-- paths take the lineages of their nodes), new Instances of charts, arrows, diagrams. Of the package
-- supervised: the whole calls of Start and of adjudication (as steps they are there, which take what
-- callbacks come to as given), what follows the Result of a call (finalize, closeJournal), status
-- reports, and what calls of nil receivers and contexts answer.
pub mod Prelude
pub mod Errors
pub mod Keys
pub mod Machine
pub mod Observer
pub mod Instance
pub mod Persist
pub mod Queued
pub mod Statechart
pub mod Supervised
mod Tests
