-- ===== src/Supervised/Journaling.antt =====
-- supervised/execution.go and delivery.go: deliverAdapter, and prepareIssue with its Journal.
use statemachine.Prelude.{ℕ, Bool, true, Option, none, some, [], ◌∷◌, if◌then◌else◌}
use statemachine.Errors.{Error, leaf, join, supervision, busy, journal_failed, fails, ok, err}
use statemachine.Keys.Defs.{both_key}
use statemachine.Supervised.Types.{Change, fault_error, Snapshot}
use statemachine.Supervised.Machine.{Response, finishes, overruns}
use statemachine.Supervised.Outcomes.{prepare}
use statemachine.Supervised.Calls.{Surroundings, published, section}
use statemachine.Supervised.Decide.{World}
use statemachine.Supervised.Delivery.{begin_delivery, end_delivery}
use statemachine.Supervised.Snapshots.{snapshot}
use statemachine.Supervised.Sections.{runs}

module _ {S E V : Type 0} (env : Surroundings S E V) where
  -- deliverAdapter; a callback that does not end in time leaves its end to come later.
  unfoldable pub deliver_adapter :
      Option ℕ
      → Bool
      → (World S E V → Response × World S E V)
      → World S E V
      → Option Error × World S E V
  unfolding section begin_delivery end_delivery
  deliver_adapter op journal callback w = elim (env.over w) [
    | some e ↦ (some e, w)
    | none ↦
        let p = section env (λ s now. begin_delivery s op journal) w in
        elim p.0 [
          | some e ↦ (some e, p.1)
          | none ↦
              let late : Response × World S E V = elim (env.over p.1) [
                | some e ↦ (finishes (fails e), p.1)
                | none ↦ callback p.1
              ] in
              elim late.0 [
                | overruns e ↦ (some e, late.1)
                | finishes reply ↦
                    let q = section env (λ s now. (end_delivery s op journal, tt)) late.1 in
                    ((published reply).error, q.1)
              ]
        ]
  ]

  -- The callback that prepareIssue gives its Journal.
  unfoldable pub journal_issue :
      ℕ
      → ℕ
      → (Snapshot S E → World S E V → Response × World S E V)
      → World S E V
      → Response × World S E V
  unfolding section runs
  journal_issue definition id journal w =
      let p =
        section env
          (λ s now. (
            s,
            (if runs s id
                then ok (snapshot definition s now)
                else err
                    (elim s.fault [ none ↦ leaf (supervision busy) | some f ↦ fault_error f ])),
          ))
          w in
      elim p.0 [ ok n ↦ journal n p.1 | err e ↦ (finishes (fails e), p.1) ]

  -- prepareIssue
  unfoldable pub prepare_issue :
      ℕ
      → Option (Snapshot S E → World S E V → Response × World S E V)
      → ℕ
      → Change S E
      → World S E V
      → Option Error × World S E V
  unfolding section prepare deliver_adapter journal_issue
  prepare_issue definition journal id change w =
      let p = section env (λ s now. prepare s id change now) w in
      elim p.0 [
        | some e ↦ (some e, p.1)
        | none ↦ elim journal [
          | none ↦ (none, p.1)
          | some j ↦
              let q = deliver_adapter (some id) true (journal_issue definition id j) p.1 in
              (
                elim q.0 [
                  | none ↦ none
                  | some e ↦ join (some (leaf (supervision journal_failed)) ∷ some e ∷ [])
                ],
                q.1,
              )
        ]
      ]
