-- ===== src/Supervised/Compile.antt =====
-- supervised/definition.go: Compile: the tests that every state is total and reachable, and its whole.
use statemachine.Prelude.{
  ℕ, zero, suc, ◌+◌, ◌==◌, Bool, true, false, not, ◌&&◌, ◌||◌, Option, none, some, List, [], ◌∷◌,
  ◌++◌, if◌then◌else◌, length,
}
use statemachine.Errors.{Result, ok, err}
use statemachine.Keys.Defs.{Key, both_key}
use statemachine.Keys.Maps.{Map, elem, lookup}
use statemachine.Supervised.Machine.{Transition, Definition, Row, Machine}
use statemachine.Supervised.Snapshots.{is_some}
use statemachine.Supervised.Declarations
use statemachine.Supervised.DeclaredRows.{when, gather_rows, any_issue}

-- The events in their order.
abbrev pub event_names : {E : Type 0} → Map E ℕ → List E
event_names [] = []
event_names ((e, i) ∷ es) = e ∷ event_names es

-- What the passes gather of a definition.
pub record Gathered (S E C T W : Type 0) : Type 0 where
  pub defects : List (Declarations.Defect S E)
  pub at : Map S ℕ
  pub known : Map S Bool
  pub event_at : Map E ℕ
  pub refused : List (S × E)
  pub rows : Map (S × E) (List (Row S E C T W))

module _ {S E : Type 0} ⦃ks : Key S⦄ where
  -- The states that are not reachable.
  unfoldable pub unreachable_states : Map S Bool → List S → List (Declarations.Defect S E)
  unreachable_states [] reachable = []
  unreachable_states ((name, terminal) ∷ known) reachable =
      when (not (elem name reachable)) (Declarations.unreachable name)
      ++ unreachable_states known reachable

module _ {S E C T W : Type 0} ⦃ks : Key S⦄ where
  -- One round of the loop that looks for reachable states, with `grew`.
  unfoldable pub grow : List (Transition S E C T W) → List S → Bool → List S × Bool
  grow [] reachable grew = (reachable, grew)
  grow (t ∷ ts) reachable grew =
      let on = grow ts (reachable ++ t.to ∷ []) true in
      let off = grow ts reachable grew in
      if elem t.from reachable && not (elem t.to reachable) then on else off

  -- The rounds of it, as many as grow. Each round that grows reaches one more destination, so one
  -- round more than there are rows is enough fuel.
  unfoldable pub reach_rounds : ℕ → List (Transition S E C T W) → List S → Option (List S)
  unfolding grow
  reach_rounds zero ts reachable = none
  reach_rounds (suc fuel) ts reachable =
      let (more, grew) = grow ts reachable false in
      let rest = reach_rounds fuel ts more in if grew then rest else some more

  abbrev pub reached : S → List (Transition S E C T W) → Option (List S)
  reached initial ts = reach_rounds (length ts + 1) ts (initial ∷ [])

module _ {S E C T W : Type 0} ⦃ks : Key S⦄ ⦃ke : Key E⦄ where
  -- The events that a state neither handles nor refuses.
  unfoldable pub unhandled_events :
      S
      → Map E ℕ
      → Map (S × E) (List (Row S E C T W))
      → List (S × E)
      → List (Declarations.Defect S E)
  unhandled_events name [] rows refused = []
  unhandled_events name ((e, i) ∷ es) rows refused =
      let rest = unhandled_events name es rows refused in
      if is_some (lookup (name, e) rows) || elem (name, e) refused
      then rest
      else Declarations.unhandled name e ∷ rest

  abbrev pub has_outgoing : S → Map E ℕ → Map (S × E) (List (Row S E C T W)) → Bool
  has_outgoing name [] rows = false
  has_outgoing name ((e, i) ∷ es) rows =
      is_some (lookup (name, e) rows) || has_outgoing name es rows

  -- The loop over the states for totality.
  unfoldable pub total_defects :
      Map S Bool
      → Map E ℕ
      → Map (S × E) (List (Row S E C T W))
      → List (S × E)
      → List (Declarations.Defect S E)
  unfolding unhandled_events
  total_defects [] events rows refused = []
  total_defects ((name, terminal) ∷ known) events rows refused =
      let rest = total_defects known events rows refused in
      if terminal
      then rest
      else unhandled_events name events rows refused
        ++ (when (not (has_outgoing name events rows)) (Declarations.no_outgoing name) ++ rest)

  -- The defects of the identity and of the key types.
  abbrev pub type_defects : Definition S E C T W → List (Declarations.Defect S E)
  type_defects d =
      when (d.id == 0) Declarations.no_id
      ++ (when (not ks.strict_type) Declarations.interface_states
          ++ when (not ke.strict_type) Declarations.interface_events)

  abbrev pub group_defects : Definition S E C T W → List (Declarations.Defect S E)
  group_defects d =
      when (length d.states == 0) Declarations.no_states
      ++ (when (length d.events == 0) Declarations.no_events
          ++ (Declarations.callback_defects Declarations.preconditions_group d.preconditions
              ++ (Declarations.callback_defects Declarations.invariants_group d.invariants
                  ++ (Declarations.callback_defects Declarations.postconditions_group
                        d.postconditions
                      ++ Declarations.callback_defects Declarations.reconcile_group d.reconcile))))

  -- The tests on reachability, where the initial state is declared.
  unfoldable pub reach_defects :
      Definition S E C T W → Map S ℕ → Map S Bool → Option (List (Declarations.Defect S E))
  unfolding reach_rounds unreachable_states
  reach_defects d at known = elim (lookup d.initial at) [
    | none ↦ some []
    | some _ ↦ elim (reached d.initial d.transitions) [
      | none ↦ none
      | some reachable ↦ some (unreachable_states known reachable)
    ]
  ]

  -- All passes but that on reachability.
  unfoldable pub gather : Definition S E C T W → Gathered S E C T W
  unfolding Declarations.gather_states Declarations.gather_events Declarations.gather_all_refusals
      Declarations.callback_defects gather_rows total_defects
  gather d =
      let states = Declarations.gather_states 0 d.states [] [] in
      let at = states.1 in
      let known = states.2 in
      let events = Declarations.gather_events 0 d.events [] in
      let refusals = Declarations.gather_all_refusals 0 d.states events.1 [] in
      let rows = gather_rows 0 d.transitions at known events.1 refusals.1 [] [] [] in
      record {
        defects =
            type_defects d
            ++ (group_defects d
                ++ (states.0
                    ++ (when (not (is_some (lookup d.initial at)) && not (length d.states == 0))
                          Declarations.undeclared_initial
                        ++ (events.0
                            ++ (refusals.0
                                ++ (rows.0 ++ total_defects known events.1 rows.1 refusals.1))))));
        at = at;
        known = known;
        event_at = events.1;
        refused = refusals.1;
        rows = rows.1;
      }

  -- The Machine of what was gathered.
  abbrev pub machine_of : Definition S E C T W → Gathered S E C T W → Machine S E C T W
  machine_of d g = record {
    id = d.id;
    initial = d.initial;
    external = any_issue d.transitions;
    states = g.known;
    events = event_names g.event_at;
    refused = g.refused;
    rows = g.rows;
    preconditions = Declarations.callbacks d.preconditions;
    invariants = Declarations.callbacks d.invariants;
    postconditions = Declarations.callbacks d.postconditions;
    reconcile = Declarations.callbacks d.reconcile;
  }

  -- Compile; none where the search for reachable states ran out of fuel.
  unfoldable pub compile_strict :
      Definition S E C T W → Option (Result (List (Declarations.Defect S E)) (Machine S E C T W))
  unfolding Declarations.keys_valid gather reach_defects
  compile_strict d =
      if not (ks.strict_type && ke.strict_type)
      then some (err (type_defects d))
      else if not (Declarations.keys_valid d)
      then some (err (Declarations.invalid_keys ∷ []))
      else elim (reach_defects d (gather d).at (gather d).known) [
        | none ↦ none
        | some more ↦ elim ((gather d).defects ++ more) [
          | [] ↦ some (ok (machine_of d (gather d)))
          | e ∷ es ↦ some (err (e ∷ es))
        ]
      ]
