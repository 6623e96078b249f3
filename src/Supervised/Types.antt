-- ===== src/Supervised/Types.antt =====
-- supervised/result.go, supervised/execution.go and supervised/record.go: the data of a Supervisor.
-- Identities that the source holds as text are numbers, of which 0 is the empty text, and times are
-- numbers too. What a Result or a Record copies of a Supervisor's identities is left out, and so are the
-- times a Result carries and the text of a Decision.
use statemachine.Prelude.{if◌then◌else◌, ◌==◌, none, some, ℕ, ◌-◌, Bool, Option, List, [], ◌∷◌}
use statemachine.Errors.{Error, leaf, tree, of_list, supervision, faulted}
use statemachine.Observer.Defs.{u64}

pub data Phase : Type 0 where
  phase_none phase_start phase_precondition phase_selection phase_guard phase_invariant : Phase
  phase_issue phase_verify phase_postcondition phase_commit phase_recover phase_trip : Phase
  phase_adjudicate : Phase

pub data Mode : Type 0 where
  mode_stopped mode_ready mode_executing mode_awaiting mode_faulted : Mode

-- math.MaxUint64
abbrev pub max_u64 : ℕ
max_u64 = u64 - 1

abbrev pub record_seq_margin : ℕ
record_seq_margin = 16

-- Durations in the unit of the clock; a duration that is not positive is 0.
pub record Limits : Type 0 where
  pub operation_timeout : ℕ
  pub verification_timeout : ℕ
  pub max_records : ℕ

pub record AttemptId : Type 0 where
  pub execution : ℕ
  pub incarnation : ℕ
  pub sequence : ℕ

-- Attempt, and the row that a Change selects for it: its identity, 0 for none, and its destination.
pub record Change (S E : Type 0) : Type 0 where
  pub id : AttemptId
  pub revision : ℕ
  pub started_at : ℕ
  pub from : S
  pub event : E
  pub transition_id : ℕ
  pub to : S

-- A time that may be the zero time, which IsZero tells from others.
abbrev pub nonzero : ℕ → Option ℕ
nonzero at = if at == 0 then none else some at

-- `transition` is the identity of the row that was issued; the rows of a Machine differ in it.
pub record PendingChange (S E : Type 0) : Type 0 where
  pub change : Change S E
  pub transition : ℕ
  pub issued_at : ℕ
  pub deadline : ℕ
  pub timer_version : ℕ

-- The number of callbacks in flight counts those of adapters too. issued_at is none for the
-- zero time, which stands there until an Issue is prepared.
pub record Operation (S E : Type 0) : Type 0 where
  pub id : ℕ
  pub change : Change S E
  pub phase : Phase
  pub started_at : ℕ
  pub issued_at : Option ℕ
  pub callbacks : ℕ
  pub returned : Bool
  pub revoked : Bool
  pub abandoned : Bool

-- `number` tells one fault record from another, as its pointer does.
pub record FaultRecord (S E : Type 0) : Type 0 where
  pub number : ℕ
  pub attempt : AttemptId
  pub change : Change S E
  pub revision : ℕ
  pub state : S
  pub phase : Phase
  pub uncertain : Bool
  pub issued_at : Option ℕ
  pub deadline : ℕ
  pub occurred_at : ℕ
  pub cause : Error

-- Fault as an error: Unwrap lists ErrFaulted and the cause.
abbrev pub fault_error : {S E : Type 0} → FaultRecord S E → Error
fault_error f = tree (of_list (leaf (supervision faulted) ∷ f.cause ∷ []))

pub record Stamp : Type 0 where
  pub seq : ℕ
  pub at : ℕ
  pub mode : Mode
  pub durable : Bool
  pub stamped : Bool
  pub exhausted : Bool

pub data Adjudication : Type 0 where
  retain adopt : Adjudication
  override : Adjudication
  unknown_outcome : ℕ → Adjudication

pub record Decision (S : Type 0) : Type 0 where
  pub outcome : Adjudication
  pub state : S

-- The owner is the number of an operation. The Change is none until one is attempted.
pub record Result (S E : Type 0) : Type 0 where
  pub operation : ℕ
  pub attempt_key : AttemptId
  pub from : S
  pub event : E
  pub transition_id : ℕ
  pub to : S
  pub change : Option (Change S E)
  pub revision : ℕ
  pub phase : Phase
  pub selected : Bool
  pub issue_completed : Bool
  pub verified : Bool
  pub committed : Bool
  pub faulted : Bool
  pub uncertain : Bool
  pub error : Option Error
  pub stamp : Stamp
  pub owner : Option ℕ
  pub reporting : Bool

pub data RecordKind : Type 0 where
  record_start record_issue record_verify record_trip record_recover : RecordKind
  record_expired record_secondary record_adjudicate record_journal : RecordKind

pub record Record (S E : Type 0) : Type 0 where
  pub seq : ℕ
  pub kind : RecordKind
  pub stamp : Stamp
  pub outcome : Result S E

-- The fields of a Supervisor that its sections under the lock read and change, and the number of
-- fault records made so far. `timer` says that a verification timer is set.
pub record Supervisor (S E : Type 0) : Type 0 where
  pub mode : Mode
  pub state : S
  pub execution : ℕ
  pub incarnation : ℕ
  pub restarts : ℕ
  pub revision : ℕ
  pub attempt : ℕ
  pub pending : Option (PendingChange S E)
  pub fault : Option (FaultRecord S E)
  pub fault_count : ℕ
  pub operation : Option (Operation S E)
  pub next_operation : ℕ
  pub timer : Bool
  pub limits : Limits
  pub max_records : ℕ
  pub records : List (Record S E)
  pub next_record : ℕ
  pub dropped_records : ℕ
  pub recorder_running : Bool
  pub journal_running : Bool
  pub reporting : ℕ

-- SnapshotVersion
abbrev pub snapshot_version : ℕ
snapshot_version = 2

-- The zero time is 0.
pub record PendingSnapshot (S E : Type 0) : Type 0 where
  pub change : Change S E
  pub issued_at : ℕ
  pub deadline : ℕ

-- fault_cause: whether there is the text of a cause.
pub record Snapshot (S E : Type 0) : Type 0 where
  pub version : ℕ
  pub definition : ℕ
  pub execution : ℕ
  pub incarnation : ℕ
  pub restarts : ℕ
  pub state : S
  pub revision : ℕ
  pub attempt : ℕ
  pub records : ℕ
  pub pending : Option (PendingSnapshot S E)
  pub in_doubt : Bool
  pub faulted : Bool
  pub uncertain : Bool
  pub fault_phase : Phase
  pub fault_cause : Bool
  pub recorded_at : ℕ
