-- ===== src/Supervised/Decisions.antt =====
-- supervised/execution.go: the sections under the lock that adjudication makes.
use statemachine.Prelude.{
  ℕ, ◌+◌, ◌==◌, Bool, true, false, not, ◌&&◌, ◌||◌, Option, none, some, if◌then◌else◌,
}
use statemachine.Errors.{
  Error, leaf, supervision, invalid_key, not_faulted, callback_running, counter_exhausted,
  invalid_decision,
}
use statemachine.Keys.Defs.{Key, value}
use statemachine.Keys.Maps.{Map, lookup}
use statemachine.Supervised.Types.{
  Phase, mode_ready, mode_faulted, Change, FaultRecord, retain, adopt, override, unknown_outcome,
  Decision, Result, Supervisor,
}
use statemachine.Supervised.Sections.{
  stamp, same_mode, counters_exhausted, occupied, begin_operation, owns, runs,
}
use statemachine.Supervised.Results.{current_change, base_result}
use statemachine.Supervised.Admission.{Admission, crashed, decline, admit}
use statemachine.Supervised.Outcomes.{lost}

module _ {S E : Type 0} where
  -- restoreFault
  unfoldable pub restore_fault :
      Supervisor S E → ℕ → FaultRecord S E → Result S E → ℕ → Supervisor S E × Result S E
  unfolding owns stamp
  restore_fault s id original base now =
      let s' : Supervisor S E =
        if owns s id
        then record s {
          operation = elim s.operation [
            | none ↦ none
            | some op ↦ some (record op { revoked = true })
          ];
          fault = some original;
          mode = mode_faulted;
        }
        else s in
      let (s'', t) = stamp s' now in (s'', record base { stamp = t })

-- What adjudicateDecision makes of a Decision: a target, with the change that it is recorded for, or
-- a refusal.
pub data Verdict (S E : Type 0) : Type 0 where
  refused_with : Error → Verdict S E
  targets : S → Change S E → Result S E → Verdict S E

module _ {S E : Type 0} ⦃ks : Key S⦄ where
  -- The switch of adjudicateDecision, for a Machine that declares these states.
  unfoldable pub judge_decision :
      E → Map S Bool → Supervisor S E → FaultRecord S E → Decision S → Result S E → Verdict S E
  judge_decision zero_event known s original decision base =
      let here : Change S E = current_change zero_event s in
      elim decision.outcome [
        | retain ↦ targets s.state here (record base { to = s.state; change = some here })
        | adopt ↦
            if original.change.transition_id == 0
              || elim original.issued_at [ none ↦ true | some _ ↦ false ]
            then refused_with (leaf (supervision invalid_decision))
            else targets original.change.to original.change (record base {
              event = original.change.event;
              transition_id = original.change.transition_id;
              to = original.change.to;
              attempt_key = original.change.id;
              change = some original.change;
            })
        | override ↦
            let change : Change S E = record here { to = decision.state } in
            if not (value decision.state)
            then refused_with (leaf invalid_key)
            else elim (lookup decision.state known) [
              | none ↦ refused_with (leaf (supervision invalid_decision))
              | some _ ↦
                  targets decision.state change
                    (record base { to = decision.state; change = some change })
            ]
        | unknown_outcome n ↦ refused_with (leaf (supervision invalid_decision))
      ]

  -- The first section of adjudicateDecision behind its switch.
  unfoldable pub adjudicate_verdict :
      Supervisor S E
      → Result S E
      → FaultRecord S E
      → Phase
      → ℕ
      → Verdict S E
      → Supervisor S E × Admission S E × Option (S × FaultRecord S E)
  unfolding decline counters_exhausted begin_operation
  adjudicate_verdict s down original phase now (refused_with e) =
      let refused = decline s down e now in (refused.0, refused.1, none)
  adjudicate_verdict s down original phase now (targets to change chosen) =
      let refused = decline s down (leaf (supervision counter_exhausted)) now in
      let admission = admit s chosen change phase now in
      if counters_exhausted s
      then (refused.0, refused.1, none)
      else (admission.0, admission.1, some (to, original))

  -- The first section of adjudicateDecision of this fault, with the target it goes on with.
  unfoldable pub adjudicate_fault :
      E
      → Map S Bool
      → Supervisor S E
      → Decision S
      → Phase
      → ℕ
      → Option (FaultRecord S E)
      → Supervisor S E × Admission S E × Option (S × FaultRecord S E)
  unfolding decline judge_decision adjudicate_verdict
  adjudicate_fault zero_event known s decision phase now none = (s, crashed, none)
  adjudicate_fault zero_event known s decision phase now (some original) =
      let base = base_result zero_event s in
      let down = record base { faulted = true; uncertain = original.uncertain } in
      let refused = decline s down (leaf (supervision callback_running)) now in
      if occupied s
      then (refused.0, refused.1, none)
      else adjudicate_verdict s down original phase now
          (judge_decision zero_event known s original decision base)

  -- The first section of adjudicateDecision.
  unfoldable pub admit_adjudicate :
      E
      → Map S Bool
      → Supervisor S E
      → Decision S
      → Phase
      → ℕ
      → Supervisor S E × Admission S E × Option (S × FaultRecord S E)
  unfolding decline adjudicate_fault
  admit_adjudicate zero_event known s decision phase now =
      let refused = decline s (base_result zero_event s) (leaf (supervision not_faulted)) now in
      if same_mode s.mode mode_faulted
      then adjudicate_fault zero_event known s decision phase now s.fault
      else (refused.0, refused.1, none)

-- The last section of adjudicateDecision, behind Reconcilers that agreed.
unfoldable pub resolve :
    {S E : Type 0}
    → Supervisor S E
    → ℕ
    → FaultRecord S E
    → Decision S
    → S
    → Phase
    → Result S E
    → ℕ
    → Supervisor S E × Result S E
unfolding runs stamp
resolve {S} {E} s id original decision target phase base now =
    let same_fault : Bool = elim s.fault [ none ↦ false | some f ↦ f.number == original.number ] in
    let kept : Bool = elim decision.outcome [ retain ↦ true | _ ↦ false ] in
    if runs s id && same_fault
    then (let moved : Supervisor S E =
          if kept then s else record s { state = target; revision = s.revision + 1 } in
        let s' : Supervisor S E = record moved { fault = none; mode = mode_ready } in
        let (s'', t) = stamp s' now in
        (
          s'',
          record base {
            committed = not kept;
            revision = moved.revision;
            stamp = record t { durable = true };
            phase = phase;
          },
        ))
    else lost s base now
