-- ===== src/Supervised/Steady.antt =====
-- supervised/execution.go, delivery.go and record.go: the sections that leave the state, the
-- revision and a latched fault as they are.
use statemachine.Prelude.{
  ℕ, ◌≡◌, refl, Bool, true, Option, none, some, List, inl, inr, Bool-cases, arith,
}
use statemachine.Errors.{Error}
use statemachine.Keys.Defs.{Key}
use statemachine.Keys.Maps.{Map}
use statemachine.Supervised.Types.{
  Phase, mode_faulted, AttemptId, Change, FaultRecord, RecordKind, Decision, Result, Supervisor,
}
use statemachine.Supervised.Sections.{
  stamp, same_mode, occupied, begin_operation, latch_now, latch, operation_returned,
  callback_returned,
}
use statemachine.Supervised.Admission.{
  decline, decline_fault, decline_faulted, start_in, admit_start, accept_issue, issue_in,
  admit_issue, expire, verify_pending, verify_in, admit_verify,
}
use statemachine.Supervised.Outcomes.{
  latch_result, enter_callback, abandon, prepare, await_verification, finish_ready, trip, ring,
  verification_expired,
}
use statemachine.Supervised.Decisions.{
  Verdict, judge_decision, adjudicate_verdict, adjudicate_fault, admit_adjudicate,
}
use statemachine.Supervised.Results.{base_result}
use statemachine.Supervised.Delivery.{lease, begin_delivery, end_delivery}
use statemachine.Supervised.Records.{append_record, record_result}

module _ {S E : Type 0} where
  abbrev pub Steady : Supervisor S E → Supervisor S E → Type 0
  Steady s t =
      (t.state ≡ s.state)
      × (t.revision ≡ s.revision)
      × ((f : FaultRecord S E) → s.fault ≡ some f → t.fault ≡ some f)

  pub stamp-Steady : (s : Supervisor S E) (now : ℕ) → Steady s (stamp s now).0
  unfolding stamp
  stamp-Steady s now = (ground arith, ground arith, λ f e. ground (arith, e))

  pub admit_start-Steady : (z : E) (s : Supervisor S E) (now : ℕ) → Steady s (admit_start z s now).0
  unfolding admit_start start_in decline decline_fault decline_faulted stamp begin_operation
  admit_start-Steady z s now = (ground arith, ground arith, λ f e. ground (arith, e))

  pub admit_issue-Steady :
      ⦃ke : Key E⦄ (events : List E) (z : E) (s : Supervisor S E) (event : E) (now : ℕ)
      → Steady s (admit_issue events z s event now).0
  unfolding admit_issue issue_in accept_issue decline decline_fault decline_faulted stamp
      begin_operation
  admit_issue-Steady events z s event now = (ground arith, ground arith, λ f e. ground (arith, e))

  pub admit_verify-Steady :
      (z : E) (s : Supervisor S E) (attempt : AttemptId) (now : ℕ)
      → Steady s (admit_verify z s attempt now).0
  unfolding admit_verify verify_in verify_pending expire latch_now decline decline_fault
      decline_faulted stamp begin_operation
  admit_verify-Steady z s attempt now = (ground arith, ground arith, λ f e. ground (arith, e))

  adjudicate_verdict-Steady :
      ⦃ks : Key S⦄ (s : Supervisor S E) (down : Result S E) (original : FaultRecord S E)
      (phase : Phase) (now : ℕ) (verdict : Verdict S E)
      → Steady s (adjudicate_verdict s down original phase now verdict).0
  unfolding adjudicate_verdict decline stamp begin_operation
  adjudicate_verdict-Steady s down original phase now verdict =
      (ground arith, ground arith, λ f e. ground (arith, e))

  adjudicate_fault-Steady :
      ⦃ks : Key S⦄ (z : E) (known : Map S Bool) (s : Supervisor S E) (decision : Decision S)
      (phase : Phase) (now : ℕ) (fault : Option (FaultRecord S E))
      → Steady s (adjudicate_fault z known s decision phase now fault).0
  unfolding adjudicate_fault decline
  adjudicate_fault-Steady z known s decision phase now none = (refl, refl, λ f e. e)
  adjudicate_fault-Steady z known s decision phase now (some original) =
      elim (Bool-cases (occupied s)) [
        | inl full ↦ rw full (stamp-Steady s now)
        | inr free ↦ rw free (
            adjudicate_verdict-Steady s
              (record (base_result z s) { faulted = true; uncertain = original.uncertain }) original
              phase now (judge_decision z known s original decision (base_result z s)))
      ]

  pub admit_adjudicate-Steady :
      ⦃ks : Key S⦄ (z : E) (known : Map S Bool) (s : Supervisor S E) (decision : Decision S)
      (phase : Phase) (now : ℕ)
      → Steady s (admit_adjudicate z known s decision phase now).0
  unfolding admit_adjudicate decline
  admit_adjudicate-Steady z known s decision phase now =
      elim (Bool-cases (same_mode s.mode mode_faulted)) [
        | inr up ↦ rw up (stamp-Steady s now)
        | inl down ↦ rw down (adjudicate_fault-Steady z known s decision phase now s.fault)
      ]

  pub enter_callback-Steady :
      (s : Supervisor S E) (id : ℕ) (change : Change S E) (phase : Phase)
      → Steady s (enter_callback s id change phase).0
  unfolding enter_callback
  enter_callback-Steady s id change phase = (ground arith, ground arith, λ f e. ground (arith, e))

  pub abandon-Steady : (s : Supervisor S E) (id : ℕ) → Steady s (abandon s id)
  unfolding abandon
  abandon-Steady s id = (ground arith, ground arith, λ f e. ground (arith, e))

  pub prepare-Steady :
      (s : Supervisor S E) (id : ℕ) (change : Change S E) (now : ℕ)
      → Steady s (prepare s id change now).0
  unfolding prepare
  prepare-Steady s id change now = (ground arith, ground arith, λ f e. ground (arith, e))

  pub await_verification-Steady :
      (s : Supervisor S E) (id : ℕ) (change : Change S E) (transition : ℕ) (base : Result S E)
      (now : ℕ)
      → Steady s (await_verification s id change transition base now).0
  unfolding await_verification stamp
  await_verification-Steady s id change transition base now =
      (ground arith, ground arith, λ f e. ground (arith, e))

  pub finish_ready-Steady :
      (s : Supervisor S E) (id : ℕ) (base : Result S E) (now : ℕ)
      → Steady s (finish_ready s id base now).0
  unfolding finish_ready stamp
  finish_ready-Steady s id base now = (ground arith, ground arith, λ f e. ground (arith, e))

  pub latch_result-Steady :
      (s : Supervisor S E) (base : Result S E) (id : ℕ) (change : Change S E) (phase : Phase)
      (cause : Error) (u : Bool) (now : ℕ)
      → Steady s (latch_result s base id change phase cause u now).0
  unfolding latch_result latch latch_now stamp
  latch_result-Steady s base id change phase cause u now =
      (ground arith, ground arith, λ f e. ground (arith, e))

  pub operation_returned-Steady : (s : Supervisor S E) (id : ℕ) → Steady s (operation_returned s id)
  unfolding operation_returned
  operation_returned-Steady s id = (ground arith, ground arith, λ f e. ground (arith, e))

  pub callback_returned-Steady : (s : Supervisor S E) (id : ℕ) → Steady s (callback_returned s id)
  unfolding callback_returned
  callback_returned-Steady s id = (ground arith, ground arith, λ f e. ground (arith, e))

  pub trip-Steady :
      (z : E) (s : Supervisor S E) (reason : Option Error) (now : ℕ)
      → Steady s (trip z s reason now).0
  unfolding trip latch_now stamp
  trip-Steady z s reason now = (ground arith, ground arith, λ f e. ground (arith, e))

  pub verification_expired-Steady :
      (s : Supervisor S E) (attempt version now : ℕ)
      → Steady s (verification_expired s attempt version now).0
  unfolding verification_expired ring expire latch_now stamp
  verification_expired-Steady s attempt version now =
      (ground arith, ground arith, λ f e. ground (arith, e))

  pub record_result-Steady :
      (s : Supervisor S E) (kind : RecordKind) (r : Result S E) (now : ℕ)
      → Steady s (record_result s kind r now)
  unfolding record_result append_record stamp
  record_result-Steady s kind r now = (ground arith, ground arith, λ f e. ground (arith, e))

  pub begin_delivery-Steady :
      (s : Supervisor S E) (op : Option ℕ) (journal : Bool)
      → Steady s (begin_delivery s op journal).0
  unfolding begin_delivery lease
  begin_delivery-Steady s op journal = (ground arith, ground arith, λ f e. ground (arith, e))

  pub end_delivery-Steady :
      (s : Supervisor S E) (op : Option ℕ) (journal : Bool) → Steady s (end_delivery s op journal)
  unfolding end_delivery callback_returned
  end_delivery-Steady s op journal = (ground arith, ground arith, λ f e. ground (arith, e))
