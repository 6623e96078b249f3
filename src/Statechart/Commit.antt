-- ===== src/Statechart/Commit.antt =====
-- statechart/statechart.go: what Fire commits behind a selected row.
use statemachine.Prelude.{◌≡◌, false, none, some, List, arith}
use statemachine.Errors.{Unwind, returned, unwound}
use statemachine.Keys.Defs.{Key}
use statemachine.Statechart.Shape.{Shape, paths_at}
use statemachine.Statechart.Chart.{internal, Info, Transition, ActionError, index_of}
use statemachine.Statechart.Lifecycle.{Instance, action_failed, perform, reenters, conclude}
use statemachine.Statechart.Plan.{run_jobs, plan, run_phases-plan}

module _ {S E C T W : Type 0} ⦃ks : Key S⦄ ⦃ke : Key E⦄ where
  -- Fire behind a selected External or Reentry row whose paths are known: the planned actions run
  -- once, one after another, up to the first that fails or unwinds. Where all come through, the
  -- Instance has the row's resolved destination; else it keeps its state, and Fire reports the
  -- failed action with its phase, its place and the number of those before it, or unwinds. The
  -- Instance is never left in flight.
  pub perform-plan :
      (i : Instance S E C T W) (s : Shape S) (c : C) (event : E) (d : T) (t : Transition S E C T W)
      (info : Info S E) (w : W) (exits entries : List S)
      → (t.kind ≡ internal → ⊥)
      → paths_at s.nodes
          (index_of s i.state)
          (index_of s t.to)
          (index_of s info.destination)
          (reenters t.kind)
        ≡ some (exits, entries)
      → let (result, w') = run_jobs c info d (plan i.chart t exits entries) w in
        let (i', answer, w'') = perform i s c event d t info w in
        (i'.flying ≡ false)
        × (result ≡ returned none
            → (i'.state ≡ info.destination)
              × ((i', answer, w'') ≡ conclude i c event d info exits entries w'))
        × ((x : ActionError S)
            → result ≡ returned (some x)
            → (i'.state ≡ i.state)
              × (answer ≡ returned (i.state, some (action_failed x)))
              × (w'' ≡ w'))
        × ((u : Unwind)
            → result ≡ unwound u
            → (i'.state ≡ i.state) × (answer ≡ unwound u) × (w'' ≡ w'))
  unfolding perform conclude
  perform-plan i s c event d t info w exits entries outer paths =
      let e = run_phases-plan i.chart t c info d exits entries w in ground (arith, e, outer, paths)
