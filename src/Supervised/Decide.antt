-- ===== src/Supervised/Decide.antt =====
-- supervised/execution.go: verifyDecision as a whole, as far as its Result, and commit.
use statemachine.Prelude.{[], ◌∷◌, ◌==◌, if◌then◌else◌, ℕ, Bool, true, Option, none, some, List}
use statemachine.Errors.{unwinds, panicked, leaf, supervision, counter_exhausted}
use statemachine.Keys.Defs.{Key, both_key}
use statemachine.Keys.Maps.{items}
use statemachine.Supervised.Types.{
  Phase, phase_verify, phase_invariant, phase_postcondition, phase_commit, AttemptId, Change,
  PendingChange, Result, Supervisor,
}
use statemachine.Supervised.Machine.{Machine, Row, Check, finishes}
use statemachine.Supervised.Admission.{
  Admission, declined, admitted, exhausts, crashed, admit_verify,
}
use statemachine.Supervised.Outcomes.{latch_result, commit}
use statemachine.Supervised.Calls.{
  Surroundings, blamed_cause, section, invoke, latching, run_checks,
}

abbrev pub World : Type 0 → Type 0 → Type 0 → Type 0
World S E V = Supervisor S E × V

module _ {S E V : Type 0} (env : Surroundings S E V) where
  -- commit, with its test of the context.
  unfoldable pub commit_call :
      ℕ → Result S E → Change S E → Bool → Bool → World S E V → Result S E × World S E V
  unfolding section commit latch_result
  commit_call id base change issue_completed verified w = elim (env.over w) [
    | some e ↦ latching env id base change phase_commit e issue_completed w
    | none ↦ section env (λ s now. commit s id base change issue_completed verified now) w
  ]

  -- The section that only latches that a counter is exhausted.
  abbrev pub exhausted_call :
      ℕ → Result S E → Change S E → Phase → Bool → World S E V → Result S E × World S E V
  exhausted_call id base change phase uncertain w =
      latching env id base change phase (leaf (supervision counter_exhausted)) uncertain w

module _ {S E C T V : Type 0} (env : Surroundings S E V) where
  -- A chain of checks, then what comes behind it.
  abbrev pub then_checks :
      ℕ
      → Result S E
      → Change S E
      → Phase
      → List (Check S E C T (World S E V))
      → C
      → T
      → Bool
      → (World S E V → Result S E × World S E V)
      → World S E V
      → Result S E × World S E V
  then_checks id base change phase checks c d uncertain k w =
      let p = run_checks env id base change phase checks c d uncertain w in
      elim p.0 [ some r ↦ (r, p.1) | none ↦ k p.1 ]

  -- verifyDecision behind its first section, with the Verify of the row that was pending.
  unfoldable pub verify_call :
      Machine S E C T (World S E V)
      → Check S E C T (World S E V)
      → ℕ
      → Result S E
      → Change S E
      → C
      → T
      → World S E V
      → Result S E × World S E V
  unfolding invoke latch_result section run_checks commit_call
  verify_call m verify id base change c d w =
      let p = invoke env id change phase_verify (verify c change d) w in
      elim p.0.error [
        | some e ↦ latching env id base change phase_verify (blamed_cause p.0 e) true p.1
        | none ↦
            let checked = record base { verified = true } in
            then_checks id checked change phase_invariant m.invariants c d true
              (then_checks id checked change phase_postcondition m.postconditions c d true
                (commit_call env id checked change true true))
              p.1
      ]

-- A call of a nil function panics.
abbrev pub nil_check : {S E C T W : Type 0} → Check S E C T W
nil_check c change d w = (finishes (unwinds (panicked 0)), w)

module _ {S E C T W : Type 0} ⦃ks : Key S⦄ ⦃ke : Key E⦄ where
  -- The Verify of the row with an identity.
  unfoldable pub find_verify : ℕ → List (Row S E C T W) → Check S E C T W
  find_verify id [] = nil_check
  find_verify id (row ∷ rows) =
      let rest = find_verify id rows in
      if row.id == id then (elim row.verify [ none ↦ nil_check | some f ↦ f ]) else rest

  -- pending.transition.verify
  unfoldable pub pending_verify : Machine S E C T W → Option (PendingChange S E) → Check S E C T W
  unfolding find_verify items
  pending_verify m none = nil_check
  pending_verify m (some p) =
      find_verify p.transition (items (p.change.from, p.change.event) m.rows)

module _ {S E C T V : Type 0} ⦃ks : Key S⦄ ⦃ke : Key E⦄ (env : Surroundings S E V) where
  -- verifyDecision; none where the nil fault of a faulted Supervisor panics.
  unfoldable pub verify_decision :
      Machine S E C T (World S E V)
      → E
      → AttemptId
      → C
      → T
      → World S E V
      → Option (Result S E) × World S E V
  unfolding section admit_verify pending_verify verify_call latch_result
  verify_decision m zero_event attempt c d w =
      let first : Supervisor S E
          → ℕ
          → Supervisor S E × (Admission S E × Check S E C T (World S E V)) =
        λ s now.
          let a = admit_verify zero_event s attempt now in
          (a.0, (a.1, pending_verify m s.pending)) in
      let p = section env first w in
      elim p.0.0 [
        | declined r ↦ (some r, p.1)
        | crashed ↦ (none, p.1)
        | exhausts id change base ↦
            let q = exhausted_call env id base change phase_verify true p.1 in (some q.0, q.1)
        | admitted id change base ↦
            let q = verify_call env m p.0.1 id base change c d p.1 in (some q.0, q.1)
      ]
