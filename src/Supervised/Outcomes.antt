-- ===== src/Supervised/Outcomes.antt =====
-- supervised/execution.go: the sections under the lock that settle an operation, and those of Trip,
-- of the verification timer, and of adjudication.
use statemachine.Prelude.{
  ℕ, ◌+◌, ◌==◌, Bool, true, false, not, ◌&&◌, Option, none, some, if◌then◌else◌, ltb,
}
use statemachine.Errors.{Error, leaf, supervision, busy, counter_exhausted, tripped}
use statemachine.Supervised.Types.{
  nonzero, Phase, phase_verify, phase_trip, phase_commit, phase_issue, Mode, mode_ready,
  mode_executing, mode_awaiting, max_u64, Change, PendingChange, fault_error, Result, Supervisor,
}
use statemachine.Supervised.Sections.{stamp, same_mode, runs, latch, latch_now}
use statemachine.Supervised.Results.{current_change, result_from_change, fault_result}
use statemachine.Supervised.Admission.{expire}

module _ {S E : Type 0} where
  -- The section of a lost operation: what it reports where it does not run any more.
  abbrev pub lost : Supervisor S E → Result S E → ℕ → Supervisor S E × Result S E
  lost s base now =
      let (s', t) = stamp s now in (s', fault_result (record base { stamp = t }) s.fault)

  -- The same in awaitVerification and finishReady, where no fault means that the operation goes on;
  -- the flag says which.
  abbrev pub slipped : Supervisor S E → Result S E → ℕ → Supervisor S E × Result S E × Bool
  slipped s base now =
      let (s', t) = stamp s now in
      elim s.fault [
        | none ↦ (s', record base { stamp = t }, true)
        | some f ↦ (s', fault_result (record base { stamp = t }) (some f), false)
      ]

  -- latchResult
  unfoldable pub latch_result :
      Supervisor S E
      → Result S E
      → ℕ
      → Change S E
      → Phase
      → Error
      → Bool
      → ℕ
      → Supervisor S E × Result S E
  unfolding latch stamp
  latch_result s base id change phase cause uncertain now =
      let (s', fresh) = latch s (some id) change phase cause uncertain now in
      let (s'', t) = stamp s' now in
      (s'', fault_result (record base { stamp = record t { durable = fresh } }) s'.fault)

  -- The second section of invoke: the callback may run, or what it is refused with.
  unfoldable pub enter_callback :
      Supervisor S E → ℕ → Change S E → Phase → Supervisor S E × Option Error
  unfolding runs
  enter_callback s id change phase =
      if runs s id
      then (
        record s {
          operation = elim s.operation [
            | none ↦ none
            | some op ↦
                some (record op { change = change; phase = phase; callbacks = op.callbacks + 1 })
          ];
        },
        none,
      )
      else (s, some (elim s.fault [ none ↦ leaf (supervision busy) | some f ↦ fault_error f ]))

  -- op.abandoned = true
  unfoldable pub abandon : Supervisor S E → ℕ → Supervisor S E
  abandon s id = elim s.operation [
    | none ↦ s
    | some op ↦
        if op.id == id then record s { operation = some (record op { abandoned = true }) } else s
  ]

  -- The first section of prepareIssue.
  unfoldable pub prepare : Supervisor S E → ℕ → Change S E → ℕ → Supervisor S E × Option Error
  unfolding runs
  prepare s id change now =
      if runs s id
      then (
        record s {
          operation = elim s.operation [
            | none ↦ none
            | some op ↦
                some (record op { change = change; phase = phase_issue; issued_at = nonzero now })
          ];
        },
        none,
      )
      else (s, some (elim s.fault [ none ↦ leaf (supervision busy) | some f ↦ fault_error f ]))

  -- awaitVerification
  unfoldable pub await_verification :
      Supervisor S E → ℕ → Change S E → ℕ → Result S E → ℕ → Supervisor S E × Result S E × Bool
  unfolding runs stamp
  await_verification s id change transition base now =
      if runs s id
      then (let s' : Supervisor S E = record s {
        pending = some (record {
          change = change;
          transition = transition;
          issued_at = elim s.operation [
            | none ↦ now
            | some op ↦ elim op.issued_at [ none ↦ 0 | some at ↦ at ]
          ];
          deadline = now + s.limits.verification_timeout;
          timer_version = id;
        });
        mode = mode_awaiting;
        timer = true;
      } in
          let (s'', t) = stamp s' now in (s'', record base { stamp = t }, true))
      else slipped s base now

  -- finishReady
  unfoldable pub finish_ready :
      Supervisor S E → ℕ → Result S E → ℕ → Supervisor S E × Result S E × Bool
  unfolding runs stamp
  finish_ready s id base now =
      if runs s id
      then (let (s', t) = stamp (record s { mode = mode_ready }) now in
          (s', record base { stamp = record t { durable = true } }, true))
      else slipped s base now

  -- commit, for a context that is not over: the checks have passed.
  unfoldable pub commit :
      Supervisor S E → ℕ → Result S E → Change S E → Bool → Bool → ℕ → Supervisor S E × Result S E
  unfolding runs stamp latch_result
  commit s id base change issue_completed verified now =
      if not (runs s id)
      then lost s base now
      else if s.revision == max_u64
      then latch_result s base id change phase_commit (leaf (supervision counter_exhausted))
          issue_completed now
      else (let s' : Supervisor S E = record s {
        state = change.to;
        revision = s.revision + 1;
        pending = none;
        mode = mode_ready;
      } in
          let (s'', t) = stamp s' now in
          (
            s'',
            record base {
              stamp = record t { durable = true };
              phase = phase_commit;
              revision = s.revision + 1;
              issue_completed = issue_completed;
              verified = verified;
              committed = true;
            },
          ))

  -- The change and the phase that Trip blames.
  abbrev pub blame_in : E → Supervisor S E → Mode → Change S E × Phase
  blame_in zero_event s mode_executing = elim s.operation [
    | none ↦ (current_change zero_event s, phase_trip)
    | some op ↦ (op.change, op.phase)
  ]
  blame_in zero_event s mode_awaiting = elim s.pending [
    | none ↦ (current_change zero_event s, phase_trip)
    | some p ↦ (p.change, phase_verify)
  ]
  blame_in zero_event s _ = (current_change zero_event s, phase_trip)

  abbrev pub tripped_change : E → Supervisor S E → Change S E × Phase
  tripped_change zero_event s = blame_in zero_event s s.mode

  -- The section of Trip.
  unfoldable pub trip : E → Supervisor S E → Option Error → ℕ → Supervisor S E × Result S E
  unfolding latch_now stamp
  trip zero_event s reason now =
      let cause : Error = elim reason [ none ↦ leaf (supervision tripped) | some e ↦ e ] in
      let (change, phase) = tripped_change zero_event s in
      let (s', fresh) = latch_now s change phase cause true now in
      let (s'', t) = stamp s' now in
      (
        record s'' { reporting = s''.reporting + 1 },
        record (result_from_change change) {
          operation = elim s'.operation [ none ↦ 0 | some op ↦ op.id ];
          phase = elim s'.fault [ none ↦ phase | some f ↦ f.phase ];
          faulted = true;
          uncertain = elim s'.fault [ none ↦ true | some f ↦ f.uncertain ];
          error = some cause;
          stamp = record t { durable = fresh };
          owner = elim s'.operation [ none ↦ none | some op ↦ some op.id ];
        },
      )

  -- Whether verificationExpired finds the change that its timer was set for.
  abbrev pub timer_fits : Supervisor S E → ℕ → ℕ → PendingChange S E → Bool
  timer_fits s attempt version p =
      same_mode s.mode mode_awaiting
      && (p.change.id.sequence == attempt && p.timer_version == version)

  -- verificationExpired, of the timer that was set for this attempt and version; a timer that is early
  -- is set again.
  unfoldable pub ring :
      Supervisor S E → ℕ → ℕ → ℕ → Option (PendingChange S E) → Supervisor S E × Option (Result S E)
  unfolding expire
  ring s attempt version now none = (s, none)
  ring s attempt version now (some p) =
      if not (timer_fits s attempt version p)
      then (s, none)
      else if ltb now p.deadline
      then (record s { timer = true }, none)
      else ((expire s p now).0, some (expire s p now).1)

  unfoldable pub verification_expired :
      Supervisor S E → ℕ → ℕ → ℕ → Supervisor S E × Option (Result S E)
  unfolding ring
  verification_expired s attempt version now = ring s attempt version now s.pending
