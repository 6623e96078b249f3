-- ===== src/Supervised/Issued.antt =====
-- supervised/execution.go: which checks stand behind a Result of Issue that is committed.
use mathlib.Core.Option.{some_inj}
use statemachine.Prelude.{
  ◌+◌, ◌∙◌, ℕ, ◌≡◌, ◌⊎◌, inl, inr, refl, sym, subst, true, false, Option, none, some, List, [], ◌∷◌,
  ◌++◌, Option-cases, Bool-cases, arith,
}
use statemachine.Errors.{Error, leaf, supervision, counter_exhausted}
use statemachine.Keys.Defs.{Key, both_key}
use statemachine.Keys.Maps.{items}
use statemachine.Supervised.Types.{
  phase_selection, phase_guard, phase_precondition, phase_invariant, phase_postcondition,
  phase_issue, Change, Snapshot, Result, Supervisor,
}
use statemachine.Supervised.Sections.{stamp}
use statemachine.Supervised.Machine.{Machine, Row, Check, Response}
use statemachine.Supervised.Admission.{
  declined, admitted, exhausts, decline, decline_fault, decline_faulted, accept_issue, issue_in,
  admit_issue,
}
use statemachine.Supervised.Outcomes.{finish_ready, await_verification}
use statemachine.Supervised.Calls.{Surroundings, section, invoke, latching}
use statemachine.Supervised.Decide.{World, commit_call, then_checks}
use statemachine.Supervised.Journaling.{prepare_issue}
use statemachine.Supervised.Issuing.{
  Choice, stops, selects, refuses, candidate, select_candidate, logical_call, external_call,
  refused_call, selected_call, issue_call, issue_decision,
}
use statemachine.Supervised.Committed.{Admission-cases}
use statemachine.Supervised.Passing.{
  invoke-Called, latching-committed, Commits, commit_call-Commits, Passed, then_checks-Passed,
}

-- The Result of a selected row before its checks.
abbrev chosen_result : {S E : Type 0} → Result S E → Change S E → Result S E
chosen_result base change = record base {
  change = some change;
  selected = true;
  transition_id = change.transition_id;
  to = change.to;
}

module _ {S E V : Type 0} (env : Surroundings S E V) where
  refused_call-committed :
      (id : ℕ) (base : Result S E) (change : Change S E) (reasons : List Error) (w : World S E V)
      → base.committed ≡ false
      → (refused_call env id base change reasons w).0.committed ≡ false
  unfolding refused_call section finish_ready stamp
  refused_call-committed id base change reasons w b = elim (Option-cases (env.over w)) [
    | inr (e, over) ↦
        let same = latching-committed env id base change phase_selection e false w in
        ground (arith, over, same, b)
    | inl goes_on ↦ ground (arith, goes_on, b)
  ]

module _ {S E C T V : Type 0} (env : Surroundings S E V) where
  external_call-committed :
      (definition : ℕ) (journal : Option (Snapshot S E → World S E V → Response × World S E V))
      (issue : Check S E C T (World S E V)) (row id : ℕ) (base : Result S E) (change : Change S E)
      (c : C) (d : T) (w : World S E V)
      → base.committed ≡ false
      → (external_call env definition journal issue row id base change c d w).0.committed ≡ false
  unfolding external_call section await_verification stamp
  external_call-committed definition journal issue row id base change c d w b =
      let p = prepare_issue env definition journal id change w in
      let q = invoke env id change phase_issue (issue c change d) p.1 in
      let issued : Result S E = record base { issue_completed = true; phase = phase_issue } in
      elim (Option-cases p.0) [
        | inr (e, failed) ↦
            let same = latching-committed env id base change phase_issue e false p.1 in
            ground (arith, failed, same, b)
        | inl prepared ↦ elim (Option-cases q.0.error) [
          | inr (e, failed) ↦
              let same = latching-committed env id base change phase_issue e true q.1 in
              ground (arith, prepared, failed, same, b)
          | inl passed ↦ elim (Option-cases (env.over q.1)) [
            | inr (e, over) ↦
                let same = latching-committed env id issued change phase_issue e true q.1 in
                ground (arith, prepared, passed, over, same, b)
            | inl goes_on ↦ ground (arith, prepared, passed, goes_on, b)
          ]
        ]
      ]

  -- The Guard of a row, where it has one.
  abbrev pub guards : Row S E C T (World S E V) → List (Check S E C T (World S E V))
  guards row = elim row.guard [ none ↦ [] | some g ↦ g ∷ [] ]

  -- From the one world to the other, the Guards of the candidates were called in their order, each with
  -- the change to its own row's destination: those in front of the row each came to an end with an
  -- error, and the one of the row, where it has one, accepted.
  abbrev pub Selects :
      ℕ
      → Change S E
      → C
      → T
      → List (Row S E C T (World S E V))
      → World S E V
      → Row S E C T (World S E V)
      → World S E V
      → Type 0
  Selects id change c d [] w row w' = true ≡ false
  Selects id change c d (t ∷ ts) w row w' =
      ((t ≡ row) × Passed env id (candidate env change t) phase_guard c d (guards t) w w')
      ⊎ ((g : Check S E C T (World S E V)) × (e : Error) × (t.guard ≡ some g)
          × let p =
              invoke env id (candidate env change t) phase_guard (g c (candidate env change t) d)
                w in
            (p.0.error ≡ some e) × (p.0.completed ≡ true) × Selects id change c d ts p.1 row w')

  select_candidate-Selects :
      (id : ℕ) (base : Result S E) (change : Change S E) (rows : List (Row S E C T (World S E V)))
      (c : C) (d : T) (reasons : List Error) (w : World S E V) (row : Row S E C T (World S E V))
      → (select_candidate env id base change rows c d reasons w).0 ≡ selects row
      → Selects id change c d rows w row (select_candidate env id base change rows c d reasons w).1
  unfolding select_candidate
  select_candidate-Selects id base change [] c d reasons w row h = absurd (ground (arith, h))
  select_candidate-Selects id base change (r ∷ rows) c d reasons w row h =
      let whole = select_candidate env id base change (r ∷ rows) c d reasons w in
      let change' = candidate env change r in
      let ends = λ (x : World S E V). Selects id change c d (r ∷ rows) w row x in
      elim (Option-cases r.guard) [
        | inl free ↦
            let same : r ≡ row = ground (arith, h, free) in
            let stays : w ≡ whole.1 = ground (arith, free) in
            subst ends stays (inl (same, rw free refl))
        | inr (g, guarded) ↦
            let p = invoke env id change' phase_guard (g c change' d) w in
            elim (Option-cases p.0.error) [
              | inl passed ↦
                  let same : r ≡ row = ground (arith, h, guarded, passed) in
                  let goes : p.1 ≡ whole.1 = ground (arith, guarded, passed) in
                  let called = invoke-Called env id change' phase_guard (g c change' d) w passed in
                  subst ends goes (inl (same, rw guarded (called, refl)))
              | inr (e, failed) ↦ elim (Bool-cases p.0.completed) [
                | inl ended ↦
                    let rest =
                      select_candidate env id base change rows c d (reasons ++ e ∷ []) p.1 in
                    let goes : rest.1 ≡ whole.1 = ground (arith, guarded, failed, ended) in
                    let later =
                      select_candidate-Selects id base change rows c d (reasons ++ e ∷ []) p.1 row
                        (ground (arith, h, guarded, failed, ended)) in
                    subst ends goes (inr (g, e, guarded, (failed, ended, later)))
                | inr stopped ↦ absurd (ground (arith, h, guarded, failed, stopped))
              ]
            ]
      ]

  select_candidate-stops :
      (id : ℕ) (base : Result S E) (change : Change S E) (rows : List (Row S E C T (World S E V)))
      (c : C) (d : T) (reasons : List Error) (w : World S E V) (r : Result S E)
      → (select_candidate env id base change rows c d reasons w).0 ≡ stops r
      → r.committed ≡ base.committed
  unfolding select_candidate
  select_candidate-stops id base change [] c d reasons w r h = absurd (ground (arith, h))
  select_candidate-stops id base change (row ∷ rows) c d reasons w r h =
      elim (Option-cases row.guard) [
        | inl free ↦ absurd (ground (arith, h, free))
        | inr (g, guarded) ↦
            let change' = candidate env change row in
            let p = invoke env id change' phase_guard (g c change' d) w in
            elim (Option-cases p.0.error) [
              | inl passed ↦ absurd (ground (arith, h, guarded, passed))
              | inr (e, failed) ↦ elim (Bool-cases p.0.completed) [
                | inl ended ↦
                    select_candidate-stops id base change rows c d (reasons ++ e ∷ []) p.1 r
                      (ground (arith, h, guarded, failed, ended))
                | inr stopped ↦
                    let stop = latching env id base change' phase_guard e false p.1 in
                    let here : stop.0 ≡ r = ground (arith, h, guarded, failed, stopped) in
                    subst (λ x. x.committed ≡ base.committed) here
                      (latching-committed env id base change' phase_guard e false p.1)
              ]
            ]
      ]

  -- The row has no Issue, and its own Preconditions, then the Invariants and the Postconditions passed
  -- one behind the other, from the one world to the other.
  abbrev pub Asked :
      Machine S E C T (World S E V)
      → ℕ
      → Change S E
      → C
      → T
      → Row S E C T (World S E V)
      → World S E V
      → World S E V
      → Type 0
  Asked m id change c d row w w' =
      (row.issue ≡ none)
      × ((u : World S E V) × (v : World S E V) × Passed env id change phase_precondition c d
            row.preconditions w u
          × Passed env id change phase_invariant c d m.invariants u v
          × Passed env id change phase_postcondition c d m.postconditions v w')

  selected_call-Asked :
      (m : Machine S E C T (World S E V))
      (journal : Option (Snapshot S E → World S E V → Response × World S E V)) (id : ℕ)
      (base : Result S E) (change : Change S E) (row : Row S E C T (World S E V)) (c : C) (d : T)
      (w : World S E V)
      → base.committed ≡ false
      → (selected_call env m journal id base change row c d w).0.committed ≡ true
      → (w' : World S E V) × Asked m id change c d row w w'
        × Commits env
            (chosen_result base change)
            change
            w'
            (selected_call env m journal id base change row c d w)
  unfolding selected_call logical_call
  selected_call-Asked m journal id base change row c d w b h =
      let chosen : Result S E = chosen_result base change in
      let act : World S E V → Result S E × World S E V = elim row.issue [
        | none ↦ logical_call env m id chosen change c d
        | some issue ↦ external_call env m.id journal issue row.id id chosen change c d
      ] in
      let invariants =
        then_checks env id chosen change phase_invariant m.invariants c d false act in
      let commits = commit_call env id chosen change false false in
      let (u, pre, on) =
        then_checks-Passed env id chosen change phase_precondition row.preconditions c d false
          invariants w b h in
      let (v, inv, further) =
        then_checks-Passed env id chosen change phase_invariant m.invariants c d false act u b
          (subst (λ x. x.0.committed ≡ true) on h) in
      let reached = on ∙ further in
      let goes_on = subst (λ x. x.0.committed ≡ true) reached h in
      elim (Option-cases row.issue) [
        | inr (issue, there) ↦
            let never =
              external_call-committed m.id journal issue row.id id chosen change c d v b in
            absurd (ground (arith, goes_on, there, never))
        | inl logical ↦
            let asks : act v ≡ logical_call env m id chosen change c d v =
              ground (arith, logical) in
            let at = reached ∙ asks in
            let (w', post, ends) =
              then_checks-Passed env id chosen change phase_postcondition m.postconditions c d false
                commits v b (subst (λ x. x.0.committed ≡ true) at h) in
            let last = at ∙ ends in
            (
              w',
              (logical, (u, v, pre, inv, post)),
              subst (λ x. Commits env chosen change w' x) (sym last)
                  (commit_call-Commits env id chosen change false false w' b
                    (subst (λ x. x.0.committed ≡ true) last h)),
            )
      ]

module _ {S E C T V : Type 0} ⦃ks : Key S⦄ ⦃ke : Key E⦄ (env : Surroundings S E V) where
  -- From the one world to the other, every Precondition of the definition passed, the row was selected
  -- among the candidates, and all was asked of it.
  abbrev pub Behind :
      Machine S E C T (World S E V)
      → ℕ
      → Change S E
      → C
      → T
      → Row S E C T (World S E V)
      → World S E V
      → World S E V
      → Type 0
  Behind m id change c d row w w' =
      (u : World S E V) × (v : World S E V) × Passed env id change phase_precondition c d
        m.preconditions w u
      × Selects env id change c d (items (change.from, change.event) m.rows) u row v
      × Asked env m id (candidate env change row) c d row v w'

  Choice-cases :
      (a : Choice S E C T V)
      → ((r : Result S E) × (a ≡ stops r))
        ⊎ (((reasons : List Error) × (a ≡ refuses reasons))
            ⊎ ((row : Row S E C T (World S E V)) × (a ≡ selects row)))
  Choice-cases (stops r) = inl (r, refl)
  Choice-cases (refuses reasons) = inr (inl (reasons, refl))
  Choice-cases (selects row) = inr (inr (row, refl))

  issue_call-Behind :
      (m : Machine S E C T (World S E V))
      (journal : Option (Snapshot S E → World S E V → Response × World S E V)) (id : ℕ)
      (base : Result S E) (change : Change S E) (c : C) (d : T) (w : World S E V)
      → base.committed ≡ false
      → (issue_call env m journal id base change c d w).0.committed ≡ true
      → (row : Row S E C T (World S E V)) × (w' : World S E V) × Behind m id change c d row w w'
        × Commits env
            (chosen_result base (candidate env change row))
            (candidate env change row)
            w'
            (issue_call env m journal id base change c d w)
  unfolding issue_call
  issue_call-Behind m journal id base change c d w b h =
      let rows = items (change.from, change.event) m.rows in
      let act : World S E V → Result S E × World S E V = λ w.
        let p = select_candidate env id base change rows c d [] w in
        elim p.0 [
          | stops r ↦ (r, p.1)
          | refuses reasons ↦ refused_call env id base change reasons p.1
          | selects row ↦ selected_call env m journal id base (candidate env change row) row c d p.1
        ] in
      let (u, pre, on) =
        then_checks-Passed env id base change phase_precondition m.preconditions c d false act w b
          h in
      let goes_on = subst (λ x. x.0.committed ≡ true) on h in
      let p = select_candidate env id base change rows c d [] u in
      elim (Choice-cases p.0) [
        | inl (r, e) ↦
            let same = select_candidate-stops env id base change rows c d [] u r e in
            absurd (ground (arith, goes_on, e, same, b))
        | inr (inl (reasons, e)) ↦
            let never = refused_call-committed env id base change reasons p.1 b in
            absurd (ground (arith, goes_on, e, never))
        | inr (inr (row, e)) ↦
            let change' = candidate env change row in
            let taken : act u ≡ selected_call env m journal id base change' row c d p.1 =
              ground (arith, e) in
            let last = on ∙ taken in
            let (w', asked, commits) =
              selected_call-Asked env m journal id base change' row c d p.1 b
                (subst (λ x. x.0.committed ≡ true) last h) in
            (
              row,
              w',
              (u, p.1, pre, select_candidate-Selects env id base change rows c d [] u row e, asked),
              subst (λ x. Commits env (chosen_result base change') change' w' x) (sym last) commits,
            )
      ]

module _ {S E : Type 0} ⦃ke : Key E⦄ where
  -- What Issue answers at once is not committed, and what it admits is an attempt of its event.
  admit_issue-admitted :
      (events : List E) (z : E) (s : Supervisor S E) (event : E) (now id : ℕ) (change : Change S E)
      (base : Result S E)
      → (admit_issue events z s event now).1 ≡ admitted id change base
      → (base.committed ≡ false) × (change.event ≡ event) × (change.from ≡ s.state)
  unfolding admit_issue issue_in accept_issue decline decline_fault decline_faulted
  admit_issue-admitted events z s event now id change base h =
      (ground (arith, h), ground (arith, h), ground (arith, h))

  admit_issue-declined :
      (events : List E) (z : E) (s : Supervisor S E) (event : E) (now : ℕ) (r : Result S E)
      → (admit_issue events z s event now).1 ≡ declined r
      → r.committed ≡ false
  unfolding admit_issue issue_in accept_issue decline decline_fault decline_faulted
  admit_issue-declined events z s event now r h = ground (arith, h)

  admit_issue-exhausts :
      (events : List E) (z : E) (s : Supervisor S E) (event : E) (now id : ℕ) (change : Change S E)
      (base : Result S E)
      → (admit_issue events z s event now).1 ≡ exhausts id change base
      → base.committed ≡ false
  unfolding admit_issue issue_in accept_issue decline decline_fault decline_faulted
  admit_issue-exhausts events z s event now id change base h = ground (arith, h)

module _ {S E C T V : Type 0} ⦃ks : Key S⦄ ⦃ke : Key E⦄ (env : Surroundings S E V) where
  -- Where Issue answers that it committed, whatever happened meanwhile, it did so for an attempt of its
  -- event from the state in which its first section found the Supervisor. From there on, every
  -- Precondition of the definition was called with the attempt and accepted it; the Guards of the
  -- candidates were called up to the first that accepted; the row of that one has no Issue, and its own
  -- Preconditions, then every Invariant and every Postcondition were called with the change to its
  -- destination, in order, and accepted it. Behind the last of them that change was committed: the call
  -- leaves the row's destination as the state, at the next revision and with nothing pending, and the
  -- Result names change, destination and revision. So a row with an Issue commits through Verify alone.
  pub issue_decision-Behind :
      (m : Machine S E C T (World S E V))
      (journal : Option (Snapshot S E → World S E V → Response × World S E V)) (z event : E) (c : C)
      (d : T) (w : World S E V) (r : Result S E)
      → (issue_decision env m journal z event c d w).0 ≡ some r
      → r.committed ≡ true
      → let v = env.meanwhile w in
        let started : World S E V = ((admit_issue m.events z v.0 event (env.clock v)).0, v.1) in
        let left_by = (issue_decision env m journal z event c d w).1 in
        (change : Change S E) × (id : ℕ) × (row : Row S E C T (World S E V)) × (w' : World S E V)
        × (change.event ≡ event)
        × (change.from ≡ v.0.state)
        × Behind env m id change c d row started w'
        × (left_by.0.state ≡ row.to)
        × (left_by.0.revision ≡ (env.meanwhile w').0.revision + 1)
        × (left_by.0.pending ≡ none)
        × (r.change ≡ some (candidate env change row))
        × (r.to ≡ row.to)
        × (r.revision ≡ left_by.0.revision)
  unfolding issue_decision section
  issue_decision-Behind m journal z event c d w r h k =
      let v = env.meanwhile w in
      let now = env.clock v in
      let a = admit_issue m.events z v.0 event now in
      let v' : World S E V = (a.0, v.1) in
      elim (Admission-cases a.1) [
        | inl (q, e) ↦
            let uncommitted = admit_issue-declined m.events z v.0 event now q e in
            absurd (ground (arith, h, k, e, uncommitted))
        | inr (inl (id, change, base, e)) ↦
            let (uncommitted, same, stood) =
              admit_issue-admitted m.events z v.0 event now id change base e in
            let call = issue_call env m journal id base change c d v' in
            let answered : some call.0 ≡ some r = ground (arith, h, e) in
            let mine : call.0 ≡ r = some_inj.0 answered in
            let left_by : (issue_decision env m journal z event c d w).1 ≡ call.1 =
              ground (arith, e) in
            let (row, w', behind, commits) =
              issue_call-Behind env m journal id base change c d v' uncommitted
                (subst (λ x. x.committed ≡ true) (sym mine) k) in
            (
              change,
              id,
              row,
              w',
              same,
              stood,
              behind,
              ground (arith, left_by, commits),
              ground (arith, left_by, commits),
              ground (arith, left_by, commits),
              ground (arith, mine, commits),
              ground (arith, mine, commits),
              ground (arith, mine, left_by, commits),
            )
        | inr (inr (inl (id, change, base, e))) ↦
            let uncommitted = admit_issue-exhausts m.events z v.0 event now id change base e in
            let same =
              latching-committed env id base change phase_selection
                (leaf (supervision counter_exhausted)) false v' in
            absurd (ground (arith, h, k, e, uncommitted, same))
        | inr (inr (inr e)) ↦ absurd (ground (arith, h, e))
      ]
