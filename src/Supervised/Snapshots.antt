-- ===== src/Supervised/Snapshots.antt =====
-- supervised/execution.go: the snapshot of a Supervisor, its construction, and its restoration from a
-- snapshot. `identity` is what the random source gives for a new identity.
use statemachine.Prelude.{
  ℕ, ◌+◌, ◌-◌, ◌==◌, Bool, true, false, not, ◌&&◌, ◌||◌, Option, none, some, List, [], ◌∷◌,
  if◌then◌else◌, leb, ltb,
}
use statemachine.Errors.{
  Error, leaf, supervision, invalid_key, invalid_times, unsupported_version, definition_mismatch,
  invalid_snapshot, unknown_state, counter_exhausted, restored_in_doubt, restored_cause,
  journal_required, Result, ok, err,
}
use statemachine.Keys.Defs.{Key, value, both_key}
use statemachine.Keys.Maps.{items, lookup}
use statemachine.Supervised.Types.{
  nonzero, phase_none, mode_stopped, mode_executing, mode_faulted, max_u64, record_seq_margin,
  snapshot_version, Limits, Change, FaultRecord, Supervisor, PendingSnapshot, Snapshot,
}
use statemachine.Supervised.Machine.{Machine, Row}
use statemachine.Supervised.Sections.{same_mode}

abbrev pub or_else : {A : Type 0} → Option A → Option A → Option A
or_else none b = b
or_else (some a) b = some a

abbrev pub is_some : {A : Type 0} → Option A → Bool
is_some none = false
is_some (some a) = true

-- resolvedMaxRecords
abbrev pub resolved_max_records : Limits → ℕ
resolved_max_records limits = if limits.max_records == 0 then 1024 else limits.max_records

-- validateLimits
unfoldable pub valid_limits : Limits → Bool
valid_limits limits = not (limits.operation_timeout == 0) && not (limits.verification_timeout == 0)

module _ {S E : Type 0} where
  -- The change that snapshotLocked reports as in doubt: the pending one, else that of an Issue under
  -- way, else that of a fault that came behind an Issue.
  abbrev pub issued_pending : Supervisor S E → Option (PendingSnapshot S E)
  issued_pending s = elim s.operation [
    | none ↦ none
    | some op ↦
        if same_mode s.mode mode_executing
        then (elim op.issued_at [
          | none ↦ none
          | some at ↦
              if op.change.id.sequence == 0
              then none
              else some (record { change = op.change; issued_at = at; deadline = 0 })
        ])
        else none
  ]

  abbrev pub fault_pending : Supervisor S E → Option (PendingSnapshot S E)
  fault_pending s = elim s.fault [
    | none ↦ none
    | some f ↦ elim f.issued_at [
      | none ↦ none
      | some at ↦ some (record {
        change = record (f.change) { id = f.attempt; from = f.state };
        issued_at = at;
        deadline = f.deadline;
      })
    ]
  ]

  abbrev pub held_pending : Supervisor S E → Option (PendingSnapshot S E)
  held_pending s = elim s.pending [
    | none ↦ none
    | some p ↦ some (record { change = p.change; issued_at = p.issued_at; deadline = p.deadline })
  ]

  abbrev pub doubtful : Supervisor S E → Option (PendingSnapshot S E)
  doubtful s = or_else (held_pending s) (or_else (issued_pending s) (fault_pending s))

  -- s.operation != nil && s.mode == ModeExecuting && !s.operation.issuedAt.IsZero()
  abbrev pub issuing : Supervisor S E → Bool
  issuing s = elim s.operation [
    | none ↦ false
    | some op ↦
        same_mode s.mode mode_executing && elim op.issued_at [ none ↦ false | some _ ↦ true ]
  ]

  -- snapshotLocked
  unfoldable pub snapshot : ℕ → Supervisor S E → ℕ → Snapshot S E
  snapshot definition s now = record {
    version = snapshot_version;
    definition = definition;
    execution = s.execution;
    incarnation = s.incarnation;
    restarts = s.restarts;
    state = s.state;
    revision = s.revision;
    attempt = s.attempt;
    records = s.next_record;
    pending = doubtful s;
    in_doubt = is_some s.pending || (issuing s || is_some (fault_pending s));
    faulted = is_some s.fault;
    uncertain = elim s.fault [ none ↦ is_some s.pending || issuing s | some f ↦ f.uncertain ];
    fault_phase = elim s.fault [ none ↦ phase_none | some f ↦ f.phase ];
    fault_cause = is_some s.fault;
    recorded_at = now;
  }

  -- newSupervisor
  unfoldable pub new_supervisor : Result Error ℕ → S → Limits → Result Error (Supervisor S E)
  unfolding valid_limits
  new_supervisor identity initial limits =
      if not (valid_limits limits) then err (leaf (supervision invalid_times)) else elim identity [
        | err e ↦ err e
        | ok n ↦ ok (record {
          mode = mode_stopped;
          state = initial;
          execution = n;
          incarnation = n;
          restarts = 0;
          revision = 0;
          attempt = 0;
          pending = none;
          fault = none;
          fault_count = 0;
          operation = none;
          next_operation = 0;
          timer = false;
          limits = limits;
          max_records = resolved_max_records limits;
          records = [];
          next_record = 0;
          dropped_records = 0;
          recorder_running = false;
          journal_running = false;
          reporting = 0;
        })
      ]

-- requireJournal, for a timeout that is not negative: `journal` says that there is one.
unfoldable pub require_journal : Bool → Bool → Bool → Bool → Option Error
require_journal external journal required unjournaled =
    if required && not journal
    then some (leaf (supervision journal_required))
    else if external && (not journal && not unjournaled)
    then some (leaf (supervision journal_required))
    else none

-- A time that is not the zero time.

-- The fault of a restored Supervisor; zero_change is the zero value of changes.
abbrev pub restored_fault : {S E : Type 0} → Change S E → Snapshot S E → FaultRecord S E
restored_fault zero_change n = record {
  number = 0;
  attempt = elim n.pending [
    | none ↦ record { execution = n.execution; incarnation = n.incarnation; sequence = n.attempt }
    | some p ↦ p.change.id
  ];
  change = elim n.pending [ none ↦ zero_change | some p ↦ p.change ];
  revision = n.revision;
  state = n.state;
  phase = n.fault_phase;
  uncertain = n.uncertain || n.in_doubt;
  issued_at = elim n.pending [ none ↦ none | some p ↦ nonzero p.issued_at ];
  deadline = elim n.pending [ none ↦ 0 | some p ↦ p.deadline ];
  occurred_at = n.recorded_at;
  cause =
      if n.fault_cause
      then leaf (supervision restored_cause)
      else leaf (supervision restored_in_doubt);
}

-- The Supervisor that restoreSupervisor makes of a snapshot, under a new incarnation.
unfoldable pub restored_supervisor :
    {S E : Type 0} → Change S E → ℕ → Limits → Snapshot S E → Supervisor S E
restored_supervisor zero_change incarnation limits n =
    let down = n.in_doubt || n.faulted in
    record {
      mode = if down then mode_faulted else mode_stopped;
      state = n.state;
      execution = n.execution;
      incarnation = incarnation;
      restarts = n.restarts + 1;
      revision = n.revision;
      attempt = n.attempt;
      pending = none;
      fault = if down then some (restored_fault zero_change n) else none;
      fault_count = if down then 1 else 0;
      operation = none;
      next_operation = 0;
      timer = false;
      limits = limits;
      max_records = resolved_max_records limits;
      records = [];
      next_record = n.records;
      dropped_records = 0;
      recorder_running = false;
      journal_running = false;
      reporting = 0;
    }

module _ {S E C T W : Type 0} ⦃ks : Key S⦄ ⦃ke : Key E⦄ where
  -- The row of a Machine that a pending change names.
  unfoldable pub row_matches : Change S E → List (Row S E C T W) → Bool
  row_matches change [] = false
  row_matches change (r ∷ rs) =
      (r.id == change.transition_id && (ks.beq r.to change.to && is_some r.issue))
      || row_matches change rs

  -- The tests on the pending change of a snapshot.
  unfoldable pub pending_error :
      Machine S E C T W → Snapshot S E → PendingSnapshot S E → Option Error
  unfolding row_matches
  pending_error m n p =
      let c = p.change in
      if not (value c.from) || (not (value c.event) || not (value c.to))
      then some (leaf invalid_key)
      else if not (c.id.execution == n.execution)
          || (c.id.incarnation == 0
              || (c.id.sequence == 0
                  || (ltb n.attempt c.id.sequence
                      || (not (c.revision == n.revision) || not (ks.beq c.from n.state)))))
      then some (leaf (supervision invalid_snapshot))
      else if not (row_matches c (items (c.from, c.event) m.rows))
      then some (leaf (supervision invalid_snapshot))
      else none

  -- A pending change is there exactly where the snapshot is in doubt.
  unfoldable pub pending_check :
      Machine S E C T W → Snapshot S E → Option (PendingSnapshot S E) → Bool → Option Error
  unfolding pending_error
  pending_check m n none false = none
  pending_check m n none true = some (leaf (supervision invalid_snapshot))
  pending_check m n (some p) false = some (leaf (supervision invalid_snapshot))
  pending_check m n (some p) true = pending_error m n p

  -- The tests of restoreSupervisor, in their order.
  unfoldable pub snapshot_error : Machine S E C T W → Limits → Snapshot S E → Option Error
  unfolding valid_limits pending_check
  snapshot_error m limits n =
      if not (valid_limits limits)
      then some (leaf (supervision invalid_times))
      else if not (n.version == snapshot_version)
      then some (leaf (supervision unsupported_version))
      else if not (n.definition == m.id)
      then some (leaf (supervision definition_mismatch))
      else if n.execution == 0 || n.incarnation == 0
      then some (leaf (supervision invalid_snapshot))
      else if not (value n.state)
      then some (leaf invalid_key)
      else if not (is_some (lookup n.state m.states))
      then some (leaf (supervision unknown_state))
      else if n.revision == max_u64
          || (n.restarts == max_u64 || leb (max_u64 - record_seq_margin) n.records)
      then some (leaf (supervision counter_exhausted))
      else pending_check m n n.pending n.in_doubt

  -- restoreSupervisor
  unfoldable pub restore :
      Result Error ℕ
      → Change S E
      → Machine S E C T W
      → Limits
      → Snapshot S E
      → Result Error (Supervisor S E)
  unfolding snapshot_error restored_supervisor
  restore identity zero_change m limits n = elim (snapshot_error m limits n) [
    | some e ↦ err e
    | none ↦ elim identity [
      | err e ↦ err e
      | ok incarnation ↦ ok (restored_supervisor zero_change incarnation limits n)
    ]
  ]
