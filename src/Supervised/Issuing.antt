-- ===== src/Supervised/Issuing.antt =====
-- supervised/execution.go: issueDecision as a whole, as far as its Result, with its Journal.
use statemachine.Prelude.{ℕ, true, false, Option, none, some, List, [], ◌∷◌, ◌++◌, if◌then◌else◌}
use statemachine.Errors.{Error, leaf, tree, of_list, not_permitted}
use statemachine.Keys.Defs.{Key, both_key}
use statemachine.Keys.Maps.{items}
use statemachine.Supervised.Types.{
  phase_selection, phase_precondition, phase_guard, phase_invariant, phase_postcondition,
  phase_issue, Change, Result, Snapshot,
}
use statemachine.Supervised.Machine.{Machine, Row, Check, Response}
use statemachine.Supervised.Admission.{declined, admitted, exhausts, crashed, admit_issue}
use statemachine.Supervised.Outcomes.{latch_result, finish_ready, await_verification}
use statemachine.Supervised.Calls.{Surroundings, section, invoke, latching, run_checks}
use statemachine.Supervised.Decide.{World, commit_call, exhausted_call, then_checks}
use statemachine.Supervised.Journaling.{prepare_issue}

abbrev pair_up : {A B D : Type 0} → A × B × D → A × (B × D)
pair_up (a, b, d) = (a, (b, d))

-- What the selection of a row comes to.
pub data Choice (S E C T V : Type 0) : Type 0 where
  stops : Result S E → Choice S E C T V
  selects : Row S E C T (World S E V) → Choice S E C T V
  refuses : List Error → Choice S E C T V

module _ {S E V : Type 0} (env : Surroundings S E V) where
  -- issueDecision where no candidate is selected.
  unfoldable pub refused_call :
      ℕ → Result S E → Change S E → List Error → World S E V → Result S E × World S E V
  unfolding section finish_ready latch_result
  refused_call id base change reasons w = elim (env.over w) [
    | some e ↦ latching env id base change phase_selection e false w
    | none ↦
        let p = section env (λ s now. pair_up (finish_ready s id base now)) w in
        (
          (if p.0.1
              then record (p.0.0) {
                phase = phase_selection;
                error = some (tree (of_list (leaf not_permitted ∷ reasons)));
              }
              else p.0.0),
          p.1,
        )
  ]

module _ {S E C T V : Type 0} (env : Surroundings S E V) where
  -- The Change of a candidate row.
  abbrev pub candidate : Change S E → Row S E C T (World S E V) → Change S E
  candidate change row = record change { transition_id = row.id; to = row.to }

  -- The loop over the candidates.
  unfoldable pub select_candidate :
      ℕ
      → Result S E
      → Change S E
      → List (Row S E C T (World S E V))
      → C
      → T
      → List Error
      → World S E V
      → Choice S E C T V × World S E V
  unfolding invoke section latch_result
  select_candidate id base change [] c d reasons w = (refuses reasons, w)
  select_candidate id base change (row ∷ rows) c d reasons w = elim row.guard [
    | none ↦ (selects row, w)
    | some guard ↦
        let p =
          invoke env id (candidate change row) phase_guard (guard c (candidate change row) d) w in
        elim p.0.error [
          | none ↦ (selects row, p.1)
          | some e ↦
              let onward = select_candidate id base change rows c d (reasons ++ e ∷ []) p.1 in
              let stop = latching env id base (candidate change row) phase_guard e false p.1 in
              if p.0.completed then onward else (stops stop.0, stop.1)
        ]
  ]

  -- issueDecision of a selected row without an Issue.
  unfoldable pub logical_call :
      Machine S E C T (World S E V)
      → ℕ
      → Result S E
      → Change S E
      → C
      → T
      → World S E V
      → Result S E × World S E V
  unfolding run_checks commit_call
  logical_call m id base change c d w =
      then_checks env id base change phase_postcondition m.postconditions c d false
        (commit_call env id base change false false) w

  -- issueDecision of a selected row with an Issue.
  unfoldable pub external_call :
      ℕ
      → Option (Snapshot S E → World S E V → Response × World S E V)
      → Check S E C T (World S E V)
      → ℕ
      → ℕ
      → Result S E
      → Change S E
      → C
      → T
      → World S E V
      → Result S E × World S E V
  unfolding section invoke prepare_issue latch_result await_verification
  external_call definition journal issue row id base change c d w =
      let p = prepare_issue env definition journal id change w in
      elim p.0 [
        | some e ↦ latching env id base change phase_issue e false p.1
        | none ↦
            let q = invoke env id change phase_issue (issue c change d) p.1 in
            let issued = record base { issue_completed = true; phase = phase_issue } in
            elim q.0.error [
              | some e ↦ latching env id base change phase_issue e true q.1
              | none ↦ elim (env.over q.1) [
                | some e ↦ latching env id issued change phase_issue e true q.1
                | none ↦
                    let r =
                      section env (λ s now. pair_up (await_verification s id change row issued now))
                        q.1 in
                    (r.0.0, r.1)
              ]
            ]
      ]

  -- issueDecision of a selected row.
  unfoldable pub selected_call :
      Machine S E C T (World S E V)
      → Option (Snapshot S E → World S E V → Response × World S E V)
      → ℕ
      → Result S E
      → Change S E
      → Row S E C T (World S E V)
      → C
      → T
      → World S E V
      → Result S E × World S E V
  unfolding run_checks logical_call external_call
  selected_call m journal id base change row c d =
      let chosen = record base {
        change = some change;
        selected = true;
        transition_id = change.transition_id;
        to = change.to;
      } in
      then_checks env id chosen change phase_precondition row.preconditions c d false (
        then_checks env id chosen change phase_invariant m.invariants c d false (elim row.issue [
          | none ↦ logical_call m id chosen change c d
          | some issue ↦ external_call m.id journal issue row.id id chosen change c d
        ]))

  -- issueDecision behind its first section.
  unfoldable pub issue_call :
      ⦃ks : Key S⦄ ⦃ke : Key E⦄
      → Machine S E C T (World S E V)
      → Option (Snapshot S E → World S E V → Response × World S E V)
      → ℕ
      → Result S E
      → Change S E
      → C
      → T
      → World S E V
      → Result S E × World S E V
  unfolding run_checks select_candidate refused_call selected_call items
  issue_call m journal id base change c d =
      then_checks env id base change phase_precondition m.preconditions c d false (λ w.
        let p =
          select_candidate id base change (items (change.from, change.event) m.rows) c d [] w in
        elim p.0 [
          | stops r ↦ (r, p.1)
          | refuses reasons ↦ refused_call env id base change reasons p.1
          | selects row ↦ selected_call m journal id base (candidate change row) row c d p.1
        ])

  -- issueDecision; none where the nil fault of a faulted Supervisor panics.
  unfoldable pub issue_decision :
      ⦃ks : Key S⦄ ⦃ke : Key E⦄
      → Machine S E C T (World S E V)
      → Option (Snapshot S E → World S E V → Response × World S E V)
      → E
      → E
      → C
      → T
      → World S E V
      → Option (Result S E) × World S E V
  unfolding section admit_issue issue_call latch_result
  issue_decision m journal zero_event event c d w =
      let p = section env (λ s now. admit_issue m.events zero_event s event now) w in
      elim p.0 [
        | declined r ↦ (some r, p.1)
        | crashed ↦ (none, p.1)
        | exhausts id change base ↦
            let q = exhausted_call env id base change phase_selection false p.1 in (some q.0, q.1)
        | admitted id change base ↦
            let q = issue_call m journal id base change c d p.1 in (some q.0, q.1)
      ]
