-- ===== src/Statechart/Position.antt =====
-- statechart/position.go and statechart/statechart.go: positions in the hierarchy, and the events
-- that are permitted.
use statemachine.Prelude.{
  ℕ, suc, ◌==◌, Bool, true, false, not, ◌&&◌, Option, none, some, List, [], ◌∷◌, ◌++◌,
  if◌then◌else◌, leb, get_elem?,
}
use statemachine.Errors.{Outcome, returned, unwound}
use statemachine.Keys.Defs.{Key, value}
use statemachine.Keys.Maps.{lookup, items, elem}
use statemachine.Statechart.Shape.{Shape}
use statemachine.Statechart.Chart.{
  Chart, chosen, declined, out_of_range, handlers, ancestry, select_transition,
}

-- Status
pub data Status : Type 0 where
  inactive enclosing active : Status

-- A position of a shape; the invalid one has none.
pub record Position (S : Type 0) : Type 0 where
  pub shape : Option (Shape S)
  pub at : Option ℕ

module _ {S : Type 0} ⦃ks : Key S⦄ where
  -- shape.stateIndex
  unfoldable pub state_index : Option (Shape S) → S → Option ℕ
  state_index none state = none
  state_index (some s) state =
      if not s.reflexive && not (value state) then none else lookup state s.index

  -- Position.Active
  unfoldable pub active_state : Position S → Option S
  active_state p = elim p.shape [
    | none ↦ none
    | some s ↦ elim p.at [
      | none ↦ none
      | some i ↦ elim (get_elem? s.nodes i) [ none ↦ none | some n ↦ some n.state ]
    ]
  ]

  -- Position.Path to a consumer that takes it whole; none is the panic of an index out of range.
  unfoldable pub path : Position S → Option (List S)
  path p = elim p.shape [
    | none ↦ some []
    | some s ↦ elim p.at [
      | none ↦ some []
      | some i ↦ elim (get_elem? s.nodes i) [
        | none ↦ some []
        | some n ↦ ancestry (suc n.depth) s.nodes (some i)
      ]
    ]
  ]

  -- Position.Status; a node's interval of membership holds that of each node below it.
  unfoldable pub status : Position S → S → Option Status
  status p state = elim p.shape [
    | none ↦ none
    | some s ↦ elim p.at [
      | none ↦ none
      | some i ↦ elim (get_elem? s.nodes i) [
        | none ↦ none
        | some below ↦ elim (state_index (some s) state) [
          | none ↦ none
          | some j ↦ if j == i then some active else elim (get_elem? s.nodes j) [
            | none ↦ none
            | some n ↦
                some
                  (if leb n.enter below.enter && leb below.exit n.exit then enclosing else inactive)
          ]
        ]
      ]
    ]
  ]

module _ {S E C T W : Type 0} ⦃ks : Key S⦄ ⦃ke : Key E⦄ where
  -- Chart.Position
  unfoldable pub position : Option (Chart S E C T W) → S → Position S × Bool
  position none state = (record { shape = none; at = none }, false)
  position (some chart) state = elim (state_index chart.shape state) [
    | none ↦ (record { shape = none; at = none }, false)
    | some i ↦ (record { shape = chart.shape; at = some i }, true)
  ]

  -- One event of Permitted behind those seen and permitted before.
  unfoldable pub permit_event :
      Chart S E C T W → C → S → T → W → E → List E × List (E × S) → Outcome (List E × List (E × S))
  permit_event chart c source d w e (seen, permits) =
      if elem e seen
      then returned (seen, permits)
      else elim (select_transition chart c source e d w) [
        | unwound u ↦ unwound u
        | returned (declined reasons) ↦ returned (seen ++ e ∷ [], permits)
        | returned (chosen t i) ↦ returned (seen ++ e ∷ [], permits ++ (e, i.destination) ∷ [])
      ]

  -- The inner loop of Permitted, over the events of one state.
  unfoldable pub permit_events :
      Chart S E C T W
      → C
      → S
      → T
      → W
      → List E
      → List E × List (E × S)
      → Outcome (List E × List (E × S))
  permit_events chart c source d w [] found = returned found
  permit_events chart c source d w (e ∷ es) found = elim (permit_event chart c source d w e found) [
    | unwound u ↦ unwound u
    | returned more ↦ permit_events chart c source d w es more
  ]

  -- The outer loop, over the active state and its ancestors.
  unfoldable pub permit_handlers :
      Chart S E C T W
      → C
      → S
      → T
      → W
      → List S
      → List E × List (E × S)
      → Outcome (List E × List (E × S))
  permit_handlers chart c source d w [] found = returned found
  permit_handlers chart c source d w (h ∷ hs) found =
      elim (permit_events chart c source d w (items h chart.events) found) [
        | unwound u ↦ unwound u
        | returned more ↦ permit_handlers chart c source d w hs more
      ]

  -- Instance.Permitted: the pairs, or the panic of a Guard.
  unfoldable pub permitted_chart : Chart S E C T W → C → S → T → W → Outcome (List (E × S))
  permitted_chart chart c source d w = elim chart.shape [
    | none ↦ returned []
    | some s ↦ elim (handlers s source) [
      | none ↦ unwound out_of_range
      | some hs ↦ elim (permit_handlers chart c source d w hs ([], [])) [
        | unwound u ↦ unwound u
        | returned found ↦ returned found.1
      ]
    ]
  ]
