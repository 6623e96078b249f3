-- ===== src/Supervised/Admission.antt =====
-- supervised/execution.go: the first section under the lock of each operation.
use statemachine.Prelude.{
  ℕ, ◌+◌, ◌==◌, true, false, not, ◌||◌, Option, none, some, List, if◌then◌else◌, ltb,
}
use statemachine.Errors.{
  Error, leaf, supervision, invalid_key, not_started, already_started, busy, awaiting, no_pending,
  stale_attempt, unknown_event, verification_timeout,
}
use statemachine.Keys.Defs.{Key, value}
use statemachine.Keys.Maps.{elem}
use statemachine.Supervised.Types.{
  Phase, phase_start, phase_selection, phase_precondition, phase_verify, Mode, mode_stopped,
  mode_ready, mode_executing, mode_awaiting, mode_faulted, max_u64, AttemptId, Change,
  PendingChange, FaultRecord, fault_error, Result, Supervisor,
}
use statemachine.Supervised.Sections.{
  stamp, same_id, counters_exhausted, occupied, begin_operation, new_id, latch_now,
}
use statemachine.Supervised.Results.{current_change, base_result, result_from_change}

-- What the first section decides: a Result at once; an operation to go on with; or one that only
-- latches that a counter is exhausted. `crashed` is the panic of a nil fault record.
pub data Admission (S E : Type 0) : Type 0 where
  declined : Result S E → Admission S E
  admitted : ℕ → Change S E → Result S E → Admission S E
  exhausts : ℕ → Change S E → Result S E → Admission S E
  crashed : Admission S E

module _ {S E : Type 0} where
  -- base.Err = err; base.stamp = s.stampLocked()
  unfoldable pub decline : Supervisor S E → Result S E → Error → ℕ → Supervisor S E × Admission S E
  unfolding stamp
  decline s base e now =
      let (s', t) = stamp s now in (s', declined (record base { error = some e; stamp = t }))

  -- The same with the fault that is latched.
  unfoldable pub decline_fault :
      Supervisor S E → Result S E → ℕ → Option (FaultRecord S E) → Supervisor S E × Admission S E
  unfolding decline
  decline_fault s base now none = (s, crashed)
  decline_fault s base now (some f) =
      decline s (record base { faulted = true; uncertain = f.uncertain }) (fault_error f) now

  unfoldable pub decline_faulted : Supervisor S E → Result S E → ℕ → Supervisor S E × Admission S E
  unfolding decline_fault
  decline_faulted s base now = decline_fault s base now s.fault

  -- The operation that begins, on behalf of base.
  abbrev pub admit :
      Supervisor S E → Result S E → Change S E → Phase → ℕ → Supervisor S E × Admission S E
  admit s base change phase now = (
    begin_operation s change phase now,
    admitted (new_id s) change (record base { operation = new_id s; owner = some (new_id s) }),
  )

  abbrev pub exhaust :
      Supervisor S E → Result S E → Change S E → Phase → ℕ → Supervisor S E × Admission S E
  exhaust s base change phase now = (
    begin_operation s change phase now,
    exhausts (new_id s) change (record base { operation = new_id s; owner = some (new_id s) }),
  )

  -- The first section of startDecision, by the mode.
  unfoldable pub start_in : E → Supervisor S E → ℕ → Mode → Supervisor S E × Admission S E
  unfolding decline decline_faulted counters_exhausted begin_operation
  start_in zero_event s now mode_faulted = decline_faulted s (base_result zero_event s) now
  start_in zero_event s now mode_executing =
      decline s (base_result zero_event s) (leaf (supervision busy)) now
  start_in zero_event s now mode_stopped =
      let base = base_result zero_event s in
      let change = current_change zero_event s in
      if occupied s
      then decline s base (leaf (supervision busy)) now
      else if counters_exhausted s
      then exhaust s base change phase_start now
      else admit s base change phase_start now
  start_in zero_event s now _ =
      decline s (base_result zero_event s) (leaf (supervision already_started)) now

  unfoldable pub admit_start : E → Supervisor S E → ℕ → Supervisor S E × Admission S E
  unfolding start_in
  admit_start zero_event s now = start_in zero_event s now s.mode

  -- The Change of a fresh attempt.
  abbrev pub attempted : Supervisor S E → E → ℕ → Change S E
  attempted s event now = record {
    id = record { execution = s.execution; incarnation = s.incarnation; sequence = s.attempt + 1 };
    revision = s.revision;
    started_at = now;
    from = s.state;
    event = event;
    transition_id = 0;
    to = s.state;
  }

  -- The first section of issueDecision behind its tests.
  unfoldable pub accept_issue :
      E → Supervisor S E → Result S E → E → ℕ → Supervisor S E × Admission S E
  unfolding counters_exhausted begin_operation
  accept_issue zero_event s base event now =
      let change = attempted s event now in
      if s.attempt == max_u64 || counters_exhausted s
      then exhaust s base (record (current_change zero_event s) { event = event }) phase_selection
          now
      else admit (record s { attempt = s.attempt + 1 })
          (record base { change = some change; attempt_key = change.id }) change phase_precondition
          now

  -- The first section of issueDecision, for a Machine that knows these events, by the mode.
  unfoldable pub issue_in :
      ⦃ke : Key E⦄
      → List E
      → E
      → Supervisor S E
      → E
      → ℕ
      → Result S E
      → Mode
      → Supervisor S E × Admission S E
  unfolding decline decline_faulted accept_issue
  issue_in events zero_event s event now base mode_stopped =
      decline s base (leaf (supervision not_started)) now
  issue_in events zero_event s event now base mode_executing =
      decline s base (leaf (supervision busy)) now
  issue_in events zero_event s event now base mode_awaiting =
      decline s base (leaf (supervision awaiting)) now
  issue_in events zero_event s event now base mode_faulted = decline_faulted s base now
  issue_in events zero_event s event now base mode_ready =
      if occupied s
      then decline s base (leaf (supervision busy)) now
      else if not (value event)
      then decline s (record base { phase = phase_selection }) (leaf invalid_key) now
      else if not (elem event events)
      then decline s (record base { phase = phase_selection }) (leaf (supervision unknown_event))
          now
      else accept_issue zero_event s base event now

  unfoldable pub admit_issue :
      ⦃ke : Key E⦄ → List E → E → Supervisor S E → E → ℕ → Supervisor S E × Admission S E
  unfolding issue_in
  admit_issue events zero_event s event now =
      issue_in events zero_event s event now (record (base_result zero_event s) { event = event })
        s.mode

  -- expireVerificationLocked, of this pending change.
  unfoldable pub expire : Supervisor S E → PendingChange S E → ℕ → Supervisor S E × Result S E
  unfolding latch_now stamp
  expire s p now =
      let (s', fresh) =
        latch_now s p.change phase_verify (leaf (supervision verification_timeout)) true now in
      let (s'', t) = stamp s' now in
      (
        record s'' { reporting = s''.reporting + 1 },
        record (result_from_change p.change) {
          phase = phase_verify;
          issue_completed = true;
          faulted = true;
          uncertain = true;
          error = elim s'.fault [ none ↦ none | some f ↦ some (fault_error f) ];
          stamp = record t { durable = fresh };
          owner = elim s'.operation [ none ↦ none | some op ↦ some op.id ];
          reporting = true;
        },
      )

  -- The first section of verifyDecision where the Supervisor awaits a verification.
  unfoldable pub verify_pending :
      Supervisor S E
      → AttemptId
      → ℕ
      → Result S E
      → Option (PendingChange S E)
      → Supervisor S E × Admission S E
  unfolding decline expire counters_exhausted begin_operation
  verify_pending s attempt now base none = decline s base (leaf (supervision no_pending)) now
  verify_pending s attempt now base (some p) =
      if not (same_id p.change.id attempt)
      then decline s (record base { attempt_key = attempt }) (leaf (supervision stale_attempt)) now
      else if not (ltb now p.deadline)
      then ((expire s p now).0, declined (expire s p now).1)
      else if counters_exhausted s
      then exhaust s base p.change phase_verify now
      else admit (record s { timer = false })
          (record (result_from_change p.change) { revision = s.revision; issue_completed = true })
          p.change phase_verify now

  -- The first section of verifyDecision, by the mode.
  unfoldable pub verify_in :
      E → Supervisor S E → AttemptId → ℕ → Mode → Supervisor S E × Admission S E
  unfolding decline decline_faulted verify_pending
  verify_in zero_event s attempt now mode_stopped =
      decline s (base_result zero_event s) (leaf (supervision not_started)) now
  verify_in zero_event s attempt now mode_ready =
      decline s (base_result zero_event s) (leaf (supervision no_pending)) now
  verify_in zero_event s attempt now mode_executing =
      decline s (base_result zero_event s) (leaf (supervision busy)) now
  verify_in zero_event s attempt now mode_faulted = decline_faulted s (base_result zero_event s) now
  verify_in zero_event s attempt now mode_awaiting =
      let base = base_result zero_event s in
      if occupied s
      then decline s base (leaf (supervision busy)) now
      else verify_pending s attempt now base s.pending

  unfoldable pub admit_verify : E → Supervisor S E → AttemptId → ℕ → Supervisor S E × Admission S E
  unfolding verify_in
  admit_verify zero_event s attempt now = verify_in zero_event s attempt now s.mode
