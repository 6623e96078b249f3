-- ===== src/Supervised/Declarations.antt =====
-- supervised/definition.go: the passes of Compile over the declared states, events and refusals. A
-- map from a name to its index serves for the names in their order, too: a name enters it once.
use statemachine.Prelude.{ℕ, ◌+◌, Bool, true, ◌&&◌, Option, none, some, List, [], ◌∷◌, ◌++◌}
use statemachine.Keys.Defs.{Key, value, both_key}
use statemachine.Keys.Maps.{Map, lookup, insert}
use statemachine.Supervised.Machine.{State, Transition, Definition}

-- The four groups of callbacks of every definition.
pub data Group : Type 0 where
  preconditions_group invariants_group postconditions_group reconcile_group : Group

-- What Compile reports; numbers are indexes, and identities 0 where empty.
pub data Defect (S E : Type 0) : Type 0 where
  no_id interface_states interface_events invalid_keys no_states no_events : Defect S E
  no_callbacks : Group → Defect S E
  nil_callback : Group → ℕ → Defect S E
  duplicate_state : ℕ → ℕ → Defect S E
  undeclared_initial : Defect S E
  duplicate_event : ℕ → ℕ → Defect S E
  duplicate_refusal : ℕ → ℕ → ℕ → Defect S E
  undeclared_refusal : ℕ → ℕ → Defect S E
  empty_row_id : ℕ → Defect S E
  duplicate_row_id : ℕ → ℕ → Defect S E
  undeclared_from undeclared_to undeclared_event : ℕ → Defect S E
  half_external : ℕ → Defect S E
  nil_precondition : ℕ → ℕ → Defect S E
  hidden_row : ℕ → ℕ → Defect S E
  refused_row leaves_terminal : ℕ → Defect S E
  unhandled : S → E → Defect S E
  no_outgoing : S → Defect S E
  unreachable : S → Defect S E

module _ {S E : Type 0} where
  -- The nil callbacks of a list from index i on.
  unfoldable pub nil_callbacks :
      {F : Type 0} → (ℕ → Defect S E) → ℕ → List (Option F) → List (Defect S E)
  nil_callbacks report i [] = []
  nil_callbacks report i (none ∷ fs) = report i ∷ nil_callbacks report (i + 1) fs
  nil_callbacks report i (some f ∷ fs) = nil_callbacks report (i + 1) fs

  -- checkRequiredCallbacks and the loop behind it.
  unfoldable pub callback_defects : {F : Type 0} → Group → List (Option F) → List (Defect S E)
  unfolding nil_callbacks
  callback_defects group [] = no_callbacks group ∷ []
  callback_defects group (f ∷ fs) = nil_callbacks (nil_callback group) 0 (f ∷ fs)

-- The callbacks that are there; Compile takes no other.
abbrev pub callbacks : {F : Type 0} → List (Option F) → List F
callbacks [] = []
callbacks (none ∷ fs) = callbacks fs
callbacks (some f ∷ fs) = f ∷ callbacks fs

abbrev pub all_of : {A : Type 0} → (A → Bool) → List A → Bool
all_of p [] = true
all_of p (a ∷ as') = p a && all_of p as'

module _ {S E C T W : Type 0} ⦃ks : Key S⦄ ⦃ke : Key E⦄ where
  -- The tests on keys, before any is used in a map.
  unfoldable pub keys_valid : Definition S E C T W → Bool
  keys_valid d =
      value d.initial
      && (all_of (λ (s : State S E). value s.name && all_of (λ (e : E). value e) s.refuse) d.states
          && (all_of (λ (e : E). value e) d.events
              && all_of
                  (λ (t : Transition S E C T W). value t.from && (value t.event && value t.to))
                  d.transitions))

module _ {S E : Type 0} ⦃ks : Key S⦄ ⦃ke : Key E⦄ where
  -- The states by name, with whether each is terminal, and their indexes.
  unfoldable pub gather_states :
      ℕ → List (State S E) → Map S ℕ → Map S Bool → List (Defect S E) × Map S ℕ × Map S Bool
  gather_states i [] at known = ([], at, known)
  gather_states i (s ∷ ss) at known =
      let fresh = gather_states (i + 1) ss (insert s.name i at) (insert s.name s.terminal known) in
      let again = gather_states (i + 1) ss at known in
      elim (lookup s.name at) [
        | none ↦ fresh
        | some previous ↦ (duplicate_state i previous ∷ again.0, again.1, again.2)
      ]

  unfoldable pub gather_events : ℕ → List E → Map E ℕ → List (Defect S E) × Map E ℕ
  gather_events i [] at = ([], at)
  gather_events i (e ∷ es) at =
      let fresh = gather_events (i + 1) es (insert e i at) in
      let again = gather_events (i + 1) es at in
      elim (lookup e at) [
        | none ↦ fresh
        | some previous ↦ (duplicate_event i previous ∷ again.0, again.1)
      ]

  -- The refusals of the state at index i, from its index j on.
  unfoldable pub gather_refusals :
      ℕ → S → Map E ℕ → ℕ → List E → Map E ℕ → List (S × E) → List (Defect S E) × List (S × E)
  gather_refusals i name at j [] seen refused = ([], refused)
  gather_refusals i name at j (e ∷ es) seen refused =
      let again = gather_refusals i name at (j + 1) es seen refused in
      let unknown = gather_refusals i name at (j + 1) es (insert e j seen) refused in
      let fresh =
        gather_refusals i name at (j + 1) es (insert e j seen) (refused ++ (name, e) ∷ []) in
      elim (lookup e seen) [
        | some previous ↦ (duplicate_refusal i j previous ∷ again.0, again.1)
        | none ↦ elim (lookup e at) [
          | none ↦ (undeclared_refusal i j ∷ unknown.0, unknown.1)
          | some _ ↦ fresh
        ]
      ]

  unfoldable pub gather_all_refusals :
      ℕ → List (State S E) → Map E ℕ → List (S × E) → List (Defect S E) × List (S × E)
  unfolding gather_refusals
  gather_all_refusals i [] at refused = ([], refused)
  gather_all_refusals i (s ∷ ss) at refused =
      let here = gather_refusals i s.name at 0 s.refuse [] refused in
      let rest = gather_all_refusals (i + 1) ss at here.1 in (here.0 ++ rest.0, rest.1)
