-- ===== src/Supervised/Sections.antt =====
-- supervised/execution.go, record.go and delivery.go: what the sections under a Supervisor's lock
-- share. A section reads its clock once, as `now`; contexts and timers that it starts or cancels are
-- code outside this repository. `zero_event` is the zero value of events.
use statemachine.Prelude.{
  ℕ, ◌+◌, ◌-◌, ◌==◌, Bool, true, false, not, ◌&&◌, ◌||◌, Option, none, some, if◌then◌else◌, leb,
}
use statemachine.Errors.{Error}
use statemachine.Supervised.Types.{
  nonzero, Phase, Mode, mode_stopped, mode_ready, mode_executing, mode_awaiting, mode_faulted,
  max_u64, record_seq_margin, AttemptId, Change, Operation, FaultRecord, Stamp, Supervisor,
}

abbrev pub same_id : AttemptId → AttemptId → Bool
same_id a b =
    a.execution == b.execution && (a.incarnation == b.incarnation && a.sequence == b.sequence)

abbrev pub same_mode : Mode → Mode → Bool
same_mode mode_stopped mode_stopped = true
same_mode mode_ready mode_ready = true
same_mode mode_executing mode_executing = true
same_mode mode_awaiting mode_awaiting = true
same_mode mode_faulted mode_faulted = true
same_mode _ _ = false

-- The zero recordStamp.
abbrev pub no_stamp : Stamp
no_stamp = record {
  seq = 0;
  at = 0;
  mode = mode_stopped;
  durable = false;
  stamped = false;
  exhausted = false;
}

module _ {S E : Type 0} where
  -- stampLocked
  unfoldable pub stamp : Supervisor S E → ℕ → Supervisor S E × Stamp
  stamp s now = if s.next_record == max_u64 then (s, record no_stamp { exhausted = true }) else (
    record s { next_record = s.next_record + 1 },
    record {
      seq = s.next_record + 1;
      at = now;
      mode = s.mode;
      durable = false;
      stamped = true;
      exhausted = false;
    },
  )

  -- countersExhaustedLocked
  unfoldable pub counters_exhausted : Supervisor S E → Bool
  counters_exhausted s =
      s.revision == max_u64
      || (leb (max_u64 - 1) s.next_operation || leb (max_u64 - record_seq_margin) s.next_record)

  -- s.operation != nil || s.recorderRunning || s.journalRunning || s.reporting != 0
  abbrev pub occupied : Supervisor S E → Bool
  occupied s =
      elim s.operation [ none ↦ false | some _ ↦ true ]
      || (s.recorder_running || (s.journal_running || not (s.reporting == 0)))

  -- beginOperationLocked
  unfoldable pub begin_operation : Supervisor S E → Change S E → Phase → ℕ → Supervisor S E
  begin_operation s change phase now = record s {
    next_operation = s.next_operation + 1;
    mode = mode_executing;
    operation = some (record {
      id = s.next_operation + 1;
      change = change;
      phase = phase;
      started_at = now;
      issued_at = none;
      callbacks = 0;
      returned = false;
      revoked = false;
      abandoned = false;
    });
  }

  -- The identity of the operation that beginOperationLocked makes.
  abbrev pub new_id : Supervisor S E → ℕ
  new_id s = s.next_operation + 1

  -- ownsLocked
  unfoldable pub owns : Supervisor S E → ℕ → Bool
  owns s id = elim s.operation [ none ↦ false | some op ↦ op.id == id && not op.revoked ]

  -- ownsLocked(op) && mode == ModeExecuting
  unfoldable pub runs : Supervisor S E → ℕ → Bool
  unfolding owns
  runs s id = owns s id && same_mode s.mode mode_executing

  -- operationReturned
  unfoldable pub operation_returned : Supervisor S E → ℕ → Supervisor S E
  operation_returned s id = elim s.operation [
    | none ↦ s
    | some op ↦
        if op.id == id
        then (if op.callbacks == 0
            then record s { operation = none }
            else record s { operation = some (record op { returned = true }) })
        else s
  ]

  -- callbackReturnedLocked
  unfoldable pub callback_returned : Supervisor S E → ℕ → Supervisor S E
  callback_returned s id = elim s.operation [
    | none ↦ s
    | some op ↦
        if op.id == id
        then (if op.returned && op.callbacks - 1 == 0
            then record s { operation = none }
            else record s { operation = some (record op { callbacks = op.callbacks - 1 }) })
        else s
  ]

  -- reportingReturned
  unfoldable pub reporting_returned : Supervisor S E → Supervisor S E
  reporting_returned s = record s { reporting = s.reporting - 1 }

  -- The times at which a change that is latched was issued, and is due.
  abbrev pub issue_times : Supervisor S E → Change S E → Option ℕ × ℕ
  issue_times s change =
      let other : Option ℕ × ℕ = (
        elim s.operation [
          | none ↦ none
          | some op ↦ if same_id op.change.id change.id then op.issued_at else none
        ],
        0,
      ) in
      elim s.pending [
        | none ↦ other
        | some p ↦
            if same_id p.change.id change.id then (nonzero p.issued_at, p.deadline) else other
      ]

  abbrev pub revoke : Option (Operation S E) → Option (Operation S E)
  revoke none = none
  revoke (some op) = some (record op { revoked = true })

  -- The fault record that latchLocked makes where there is none.
  abbrev pub new_fault : Supervisor S E → Change S E → Phase → Error → Bool → ℕ → FaultRecord S E
  new_fault s change phase cause uncertain now = record {
    number = s.fault_count;
    attempt = record {
      execution = s.execution;
      incarnation = change.id.incarnation;
      sequence = change.id.sequence;
    };
    change = change;
    revision = s.revision;
    state = s.state;
    phase = phase;
    uncertain = uncertain;
    issued_at = (issue_times s change).0;
    deadline = (issue_times s change).1;
    occurred_at = now;
    cause = cause;
  }

  -- The part of latchLocked behind the test of ownership, with whether the fault is a fresh one.
  unfoldable pub latch_now :
      Supervisor S E → Change S E → Phase → Error → Bool → ℕ → Supervisor S E × Bool
  latch_now s change phase cause uncertain now =
      let down : Supervisor S E = record s {
        timer = false;
        pending = none;
        operation = revoke s.operation;
        mode = mode_faulted;
      } in
      elim s.fault [
        | some f ↦ (down, false)
        | none ↦ (
          record down {
            fault = some (new_fault s change phase cause uncertain now);
            fault_count = s.fault_count + 1;
          },
          true,
        )
      ]

  -- latchLocked; the operation is none for Trip and for expiry.
  unfoldable pub latch :
      Supervisor S E → Option ℕ → Change S E → Phase → Error → Bool → ℕ → Supervisor S E × Bool
  unfolding latch_now owns
  latch s op change phase cause uncertain now = elim op [
    | none ↦ latch_now s change phase cause uncertain now
    | some id ↦ if owns s id then latch_now s change phase cause uncertain now else (s, false)
  ]
