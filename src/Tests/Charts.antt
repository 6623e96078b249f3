-- ===== src/Tests/Charts.antt =====
-- A chart with one composite state and its two children.
use statemachine.Prelude.{
  ℕ, ◌+◌, ◌≡◌, refl, true, false, Option, none, some, List, [], ◌∷◌, ◌++◌, arith, if◌then◌else◌,
  ◌==◌,
}
use statemachine.Errors.{leaf, app, accepts, fails, Unwind, returned, unwound}
use statemachine.Keys.Maps.{Map}
use statemachine.Statechart.Shape.{
  Node, Shape, paths_at, least_common_ancestor, paths_below, climb, descend,
}
use statemachine.Statechart.Lineage.{Lineage, root, up, Upper, Largest, states}
use statemachine.Statechart.Ancestor.{least_common_ancestor-Largest}
use statemachine.Statechart.Paths.{paths_at-external, paths_at-reentry, reversed}
use statemachine.Statechart.Chart.{
  external, internal, reentry, Info, Transition, StateActions, ActionError, index_of,
  select_handlers,
}
use statemachine.Statechart.Chart.{handlers, ancestry, select_transition, select_rows, destination}
use statemachine.Statechart.Position.{permitted_chart, permit_handlers, permit_events, permit_event}
use statemachine.Statechart.Offers.{Leads, Apart, permitted_chart-select}
use statemachine.Prelude.{All, Pairs, Bool-cases, inl, inr}
use statemachine.Keys.Defs.{value}
use statemachine.Keys.Maps.{elem, items, lookup}
use statemachine.Statechart.Select.{Picks, candidates, select_transition-Picks}
use statemachine.Statechart.Lifecycle.{Instance, action_failed, perform, conclude}
use statemachine.Statechart.Plan.{run_jobs, plan}
use statemachine.Statechart.Commit.{perform-plan}
use statemachine.Tests.Data.{nat_key}

abbrev whole : Node ℕ
whole = record { state = 10; parent = none; depth = 0; enter = 0; exit = 3; destination = 1 }

abbrev first : Node ℕ
first = record { state = 11; parent = some 0; depth = 1; enter = 2; exit = 3; destination = 1 }

abbrev second : Node ℕ
second = record { state = 12; parent = some 0; depth = 1; enter = 1; exit = 2; destination = 2 }

abbrev family : List (Node ℕ)
family = whole ∷ first ∷ second ∷ []

abbrev tree_shape : Shape ℕ
tree_shape = record { nodes = family; index = (10, 0) ∷ (11, 1) ∷ (12, 2) ∷ []; reflexive = true }

above : Lineage family (some 0) ((0, whole) ∷ [])
above = up whole refl refl root

first_line : Lineage family (some 1) ((1, first) ∷ (0, whole) ∷ [])
first_line = up first refl refl above

second_line : Lineage family (some 2) ((2, second) ∷ (0, whole) ∷ [])
second_line = up second refl refl above

least_common_ancestor-Largest_example :
    (k : Option ℕ) × (zs : List (ℕ × Node ℕ)) × (least_common_ancestor family 1 2 ≡ some k)
    × Upper family ((1, first) ∷ (0, whole) ∷ []) zs k
    × Upper family ((2, second) ∷ (0, whole) ∷ []) zs k
    × Largest ((1, first) ∷ (0, whole) ∷ []) ((2, second) ∷ (0, whole) ∷ []) zs
least_common_ancestor-Largest_example =
    least_common_ancestor-Largest family 1 2 ((1, first) ∷ (0, whole) ∷ [])
      ((2, second) ∷ (0, whole) ∷ []) first_line second_line

paths_at-external_example :
    (ps : List (ℕ × Node ℕ)) × (qs : List (ℕ × Node ℕ)) × (zs : List (ℕ × Node ℕ)) × (paths_at
        family 1 2 2 false
      ≡ some (states ps, reversed ([] ++ qs) []))
    × ((1, first) ∷ (0, whole) ∷ [] ≡ ps ++ zs)
    × ((2, second) ∷ (0, whole) ∷ [] ≡ qs ++ zs)
    × Largest ((1, first) ∷ (0, whole) ∷ []) ((2, second) ∷ (0, whole) ∷ []) zs
paths_at-external_example =
    paths_at-external family 1 2 2 ((1, first) ∷ (0, whole) ∷ []) ((2, second) ∷ (0, whole) ∷ []) []
      first_line second_line second_line

paths_at-reentry_example :
    (n : Node ℕ) × (us : List (ℕ × Node ℕ)) × ((0, whole) ∷ [] ≡ (0, n) ∷ us)
    × (paths_at family 1 0 1 true
        ≡ some
            (states ((1, first) ∷ [] ++ (0, n) ∷ []), reversed ((1, first) ∷ [] ++ (0, n) ∷ []) []))
paths_at-reentry_example =
    paths_at-reentry family 1 0 1 ((1, first) ∷ []) ((1, first) ∷ []) ((0, whole) ∷ []) first_line
      first_line above

abbrev Row : Type 0
Row = Transition ℕ ℕ ℕ ℕ ℕ

abbrev declining : Row
declining = record {
  from = 11;
  event = 5;
  to = 12;
  kind = external;
  guard = some (λ c i d w. if w == 0 then fails (leaf (app 7)) else accepts);
  effect = none;
}

abbrev inherited : Row
inherited = record {
  from = 10;
  event = 5;
  to = 10;
  kind = reentry;
  guard = none;
  effect = some (λ c i d w. (accepts, w + 1));
}

abbrev all_rows : Map (ℕ × ℕ) (List Row)
all_rows = ((11, 5), declining ∷ []) ∷ ((10, 5), inherited ∷ []) ∷ []

abbrev counted : StateActions ℕ ℕ ℕ ℕ ℕ
counted = record {
  entry = none ∷ some (λ c i d w. (accepts, w + 10)) ∷ [];
  exit = some (λ c i d w. (accepts, w + 100)) ∷ [];
}

abbrev owner : Instance ℕ ℕ ℕ ℕ ℕ
owner = record {
  chart = record {
    states = (10, counted) ∷ (11, counted) ∷ [];
    rows = all_rows;
    events = (11, 5 ∷ []) ∷ (10, 5 ∷ []) ∷ [];
    shape = some tree_shape;
    reflexive_event = true;
  };
  state = 11;
  flying = true;
  observers = [];
  seq = 0;
}

select_transition-Picks_example :
    Picks tree_shape 11 5 3 4 0
      (candidates tree_shape 11 5 3 4 0 all_rows (11 ∷ 10 ∷ []))
      []
      (select_transition owner.chart 3 11 5 4 0)
unfolding lookup
select_transition-Picks_example =
    select_transition-Picks owner.chart tree_shape 11 5 3 4 0 ((1, first) ∷ (0, whole) ∷ []) refl
      first_line

abbrev told : Info ℕ ℕ
told = record {
  source = 11;
  handler = 10;
  target = 10;
  destination = 11;
  event = 5;
  kind = reentry;
}

outer : inherited.kind ≡ internal → ⊥
outer e = ground arith

known_paths :
    paths_at tree_shape.nodes
      (index_of tree_shape 11)
      (index_of tree_shape 10)
      (index_of tree_shape 11)
      true
    ≡ some (11 ∷ 10 ∷ [], 10 ∷ 11 ∷ [])
unfolding paths_at paths_below climb descend lookup
known_paths = refl

perform-plan_example :
    let (result, w') =
      run_jobs 3 told 4 (plan owner.chart inherited (11 ∷ 10 ∷ []) (10 ∷ 11 ∷ [])) 0 in
    let (i', answer, w'') = perform owner tree_shape 3 5 4 inherited told 0 in
    (i'.flying ≡ false)
    × (result ≡ returned none
        → (i'.state ≡ 11)
          × ((i', answer, w'') ≡ conclude owner 3 5 4 told (11 ∷ 10 ∷ []) (10 ∷ 11 ∷ []) w'))
    × ((x : ActionError ℕ)
        → result ≡ returned (some x)
        → (i'.state ≡ 11) × (answer ≡ returned (11, some (action_failed x))) × (w'' ≡ w'))
    × ((u : Unwind) → result ≡ unwound u → (i'.state ≡ 11) × (answer ≡ unwound u) × (w'' ≡ w'))
perform-plan_example =
    perform-plan owner tree_shape 3 5 4 inherited told 0 (11 ∷ 10 ∷ []) (10 ∷ 11 ∷ []) outer
      known_paths

all_valid : (h : ℕ) → All (λ e. value {K = ℕ} e ≡ true) (items h owner.chart.events)
unfolding items lookup
all_valid h = elim (Bool-cases (11 == h)) [
  | inl low ↦ rw (low, items, lookup) (refl, tt)
  | inr other ↦ elim (Bool-cases (10 == h)) [
    | inl high ↦ rw (other, high, items, lookup) (refl, tt)
    | inr none_of ↦ rw (other, none_of, items, lookup) tt
  ]
]

offered : permitted_chart owner.chart 3 11 4 0 ≡ returned ((5, 11) ∷ [])
unfolding permitted_chart permit_handlers permit_events permit_event handlers ancestry elem
    select_transition select_handlers select_rows destination lookup items
offered = refl

permitted_chart-select_example :
    All (Leads owner.chart 3 11 4 0) ((5, 11) ∷ [])
    × Pairs (Apart owner.chart 3 11 4 0) ((5, 11) ∷ [])
permitted_chart-select_example =
    permitted_chart-select owner.chart 3 11 4 0 ((5, 11) ∷ []) all_valid offered
