-- ===== src/Statechart/Chart.antt =====
-- statechart/statechart.go: compiled charts, the selection of a row, and the lifecycle actions.
use statemachine.Prelude.{ℕ, zero, suc, Bool, Option, none, some, List, [], ◌∷◌, ◌++◌, get_elem?}
use statemachine.Errors.{
  Error, Unwind, panicked, Reply, accepts, fails, unwinds, Outcome, returned, unwound,
}
use statemachine.Keys.Defs.{Key, both_key}
use statemachine.Keys.Maps.{Map, lookup, items}
use statemachine.Statechart.Shape.{Node, Shape}

pub data Kind : Type 0 where
  external internal reentry : Kind

pub record Info (S E : Type 0) : Type 0 where
  pub source : S
  pub handler : S
  pub target : S
  pub destination : S
  pub event : E
  pub kind : Kind

abbrev pub Action : Type 0 → Type 0 → Type 0 → Type 0 → Type 0 → Type 0
Action S E C T W = C → Info S E → T → W → Reply × W

-- A Guard only reads the world.
abbrev pub Guard : Type 0 → Type 0 → Type 0 → Type 0 → Type 0 → Type 0
Guard S E C T W = C → Info S E → T → W → Reply

pub record Transition (S E C T W : Type 0) : Type 0 where
  pub from : S
  pub event : E
  pub to : S
  pub kind : Kind
  pub guard : Option (Guard S E C T W)
  pub effect : Option (Action S E C T W)

pub record StateActions (S E C T W : Type 0) : Type 0 where
  pub entry : List (Option (Action S E C T W))
  pub exit : List (Option (Action S E C T W))

pub record Chart (S E C T W : Type 0) : Type 0 where
  pub states : Map S (StateActions S E C T W)
  pub rows : Map (S × E) (List (Transition S E C T W))
  pub events : Map S (List E)
  pub shape : Option (Shape S)
  pub reflexive_event : Bool

-- What selectTransition answers: a row with what its actions are told, or the reasons of those
-- that declined.
pub data Selection (S E C T W : Type 0) : Type 0 where
  chosen : Transition S E C T W → Info S E → Selection S E C T W
  declined : List Error → Selection S E C T W

pub data Phase : Type 0 where
  exiting effecting entering : Phase

-- The state is that of an exit or entry action.
pub record ActionError (S : Type 0) : Type 0 where
  pub phase : Phase
  pub state : Option S
  pub index : ℕ
  pub completed : ℕ
  pub cause : Error

-- The runtime error of an index out of range.
abbrev pub out_of_range : Unwind
out_of_range = panicked 0

module _ {S : Type 0} where
  -- The states that the loop `for index := ...; index != -1; index = nodes[index].parent` visits.
  unfoldable pub ancestry : ℕ → List (Node S) → Option ℕ → Option (List S)
  ancestry fuel ns none = some []
  ancestry zero ns (some i) = none
  ancestry (suc fuel) ns (some i) = elim (get_elem? ns i) [
    | none ↦ none
    | some n ↦ elim (ancestry fuel ns n.parent) [ none ↦ none | some xs ↦ some (n.state ∷ xs) ]
  ]

module _ {S : Type 0} ⦃ks : Key S⦄ where
  -- index[state], which is 0 for a state that is not there.
  abbrev pub index_of : Shape S → S → ℕ
  index_of s state = elim (lookup state s.index) [ none ↦ 0 | some i ↦ i ]

  -- The states that may handle an event, from the active one up.
  unfoldable pub handlers : Shape S → S → Option (List S)
  handlers s source = elim (get_elem? s.nodes (index_of s source)) [
    | none ↦ none
    | some n ↦ ancestry (suc n.depth) s.nodes (some (index_of s source))
  ]

  -- Chart.destination
  unfoldable pub destination : Shape S → S → Option S
  destination s state = elim (get_elem? s.nodes (index_of s state)) [
    | none ↦ none
    | some n ↦ elim (get_elem? s.nodes n.destination) [ none ↦ none | some m ↦ some m.state ]
  ]

module _ {S E C T W : Type 0} ⦃ks : Key S⦄ ⦃ke : Key E⦄ (s : Shape S) (source : S) (event : E)
    (c : C) (d : T) (w : W) where
  -- The destination of a row.
  abbrev pub leads_to : Transition S E C T W → Option S
  leads_to t = elim t.kind [ internal ↦ some source | _ ↦ destination s t.to ]

  abbrev pub info_of : S → Transition S E C T W → S → Info S E
  info_of handler t to = record {
    source = source;
    handler = handler;
    target = t.to;
    destination = to;
    event = event;
    kind = t.kind;
  }

  -- The inner loop of selectTransition, over the rows of one handler.
  unfoldable pub select_rows :
      S → List (Transition S E C T W) → List Error → Outcome (Selection S E C T W)
  select_rows handler [] reasons = returned (declined reasons)
  select_rows handler (t ∷ ts) reasons = elim (leads_to t) [
    | none ↦ unwound out_of_range
    | some to ↦ elim t.guard [
      | none ↦ returned (chosen t (info_of handler t to))
      | some g ↦ elim (g c (info_of handler t to) d w) [
        | accepts ↦ returned (chosen t (info_of handler t to))
        | fails e ↦ select_rows handler ts (reasons ++ e ∷ [])
        | unwinds u ↦ unwound u
      ]
    ]
  ]

  -- The outer loop, over the handlers.
  unfoldable pub select_handlers :
      Map (S × E) (List (Transition S E C T W))
      → List S
      → List Error
      → Outcome (Selection S E C T W)
  select_handlers rows [] reasons = returned (declined reasons)
  select_handlers rows (h ∷ hs) reasons = elim (select_rows h (items (h, event) rows) reasons) [
    | returned (chosen t i) ↦ returned (chosen t i)
    | returned (declined more) ↦ select_handlers rows hs more
    | unwound u ↦ unwound u
  ]

-- selectTransition; a chart without a shape has no rows.
unfoldable pub select_transition :
    {S E C T W : Type 0} ⦃ks : Key S⦄ ⦃ke : Key E⦄
    → Chart S E C T W
    → C
    → S
    → E
    → T
    → W
    → Outcome (Selection S E C T W)
select_transition chart c source event d w = elim chart.shape [
  | none ↦ returned (declined [])
  | some s ↦ elim (handlers s source) [
    | none ↦ unwound out_of_range
    | some hs ↦ select_handlers s source event c d w chart.rows hs []
  ]
]
