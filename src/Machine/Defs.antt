-- ===== src/Machine/Defs.antt =====
-- statemachine.go: the types and operations of the compiled transition table.
use statemachine.Prelude.{
  ℕ, ◌+◌, Bool, true, false, not, ◌&&◌, ◌||◌, Option, none, some, List, [], ◌∷◌, ◌++◌,
  if◌then◌else◌,
}
use statemachine.Errors.{
  Error, leaf, tree, of_list, not_permitted, invalid_key, Unwind, Reply, accepts, fails, unwinds,
  Outcome, returned, unwound, Result, ok, err,
}
use statemachine.Keys.Defs.{Key, value, both_key}
use statemachine.Keys.Maps.{Map, lookup, insert, items, append_at}

-- C is the context, T the data, and W all that callbacks read and change. A Guard only reads W.
abbrev pub Guard : Type 0 → Type 0 → Type 0 → Type 0
Guard C T W = C → T → W → Reply

abbrev pub Effect : Type 0 → Type 0 → Type 0 → Type 0
Effect C T W = C → T → W → Reply × W

pub record Transition (S E C T W : Type 0) : Type 0 where
  pub from : S
  pub event : E
  pub to : S
  pub guard : Option (Guard C T W)
  pub effect : Option (Effect C T W)

pub record Machine (S E C T W : Type 0) : Type 0 where
  pub rows : Map (S × E) (List (Transition S E C T W))
  pub events : Map S (List E)
  pub reflexive_state : Bool
  pub reflexive_event : Bool

pub data CompileError : Type 0 where
  interface_state interface_event : CompileError
  invalid_row : ℕ → CompileError
  unreachable_row : ℕ → ℕ → CompileError

-- The error that a refusal is: ErrNotPermitted, followed by each reason in table order.
abbrev pub refusal : List Error → Error
refusal reasons = tree (of_list (leaf not_permitted ∷ reasons))

-- What an effect's answer makes of an execution that goes from one state to another.
abbrev pub settle : {S : Type 0} → S → S → Reply → Outcome (S × Option Error)
settle from to accepts = returned (to, none)
settle from to (fails e) = returned (from, some e)
settle from to (unwinds u) = unwound u

module _ {S E C T W : Type 0} where
  abbrev pub unguarded : Transition S E C T W → Bool
  unguarded t = elim t.guard [ none ↦ true | some _ ↦ false ]

  -- The zero Machine has no rows and keeps the value checks.
  abbrev pub zero_machine : Machine S E C T W
  zero_machine = record { rows = []; events = []; reflexive_state = false; reflexive_event = false }

  -- The loop of selectTransition over the rows of one group.
  unfoldable pub select_rows :
      List (Transition S E C T W)
      → C
      → T
      → W
      → List Error
      → Outcome (Result (List Error) (Transition S E C T W))
  select_rows [] c d w reasons = returned (err reasons)
  select_rows (t ∷ ts) c d w reasons = elim t.guard [
    | none ↦ returned (ok t)
    | some g ↦ elim (g c d w) [
      | accepts ↦ returned (ok t)
      | fails e ↦ select_rows ts c d w (reasons ++ e ∷ [])
      | unwinds u ↦ unwound u
    ]
  ]

  -- The effect of the selected row, and where it leaves the execution.
  unfoldable pub perform : Transition S E C T W → C → S → T → W → Outcome (S × Option Error) × W
  perform t c from d w = elim t.effect [
    | none ↦ (returned (t.to, none), w)
    | some f ↦ let (reply, w') = f c d w in (settle from t.to reply, w')
  ]

  -- The rows of one event under Permitted: where the first row that applies leads, if one does.
  unfoldable pub permitted_rows : List (Transition S E C T W) → C → T → W → Outcome (Option S)
  permitted_rows [] c d w = returned none
  permitted_rows (t ∷ ts) c d w = elim t.guard [
    | none ↦ returned (some t.to)
    | some g ↦ elim (g c d w) [
      | accepts ↦ returned (some t.to)
      | fails e ↦ permitted_rows ts c d w
      | unwinds u ↦ unwound u
    ]
  ]

module _ {S E C T W : Type 0} ⦃ks : Key S⦄ ⦃ke : Key E⦄ where
  abbrev pub row_key : Transition S E C T W → S × E
  row_key t = (t.from, t.event)

  -- The test of Compile on the keys of one row.
  unfoldable pub row_valid : Machine S E C T W → Transition S E C T W → Bool
  row_valid m t =
      (m.reflexive_state || value t.from && value t.to) && (m.reflexive_event || value t.event)

  -- One row enters the Machine; its event is new for its state where the group has no row yet.
  unfoldable pub add_row : Transition S E C T W → Machine S E C T W → Machine S E C T W
  add_row t m = record m {
    events = elim (lookup (row_key t) m.rows) [
      | none ↦ append_at t.from t.event m.events
      | some _ ↦ m.events
    ];
    rows = append_at (row_key t) t m.rows;
  }

  -- if t.Guard == nil { unguarded[k] = i }
  abbrev pub mark : ℕ → Transition S E C T W → Map (S × E) ℕ → Map (S × E) ℕ
  mark i t dead = if unguarded t then insert (row_key t) i dead else dead

  -- The loop of Compile from row i on; `dead` is the map `unguarded` of the source.
  unfoldable pub compile_rows :
      ℕ
      → List (Transition S E C T W)
      → Map (S × E) ℕ
      → Machine S E C T W
      → Result CompileError (Machine S E C T W)
  compile_rows i [] dead m = ok m
  compile_rows i (t ∷ ts) dead m =
      let rest = compile_rows (i + 1) ts (mark i t dead) (add_row t m) in
      if not (row_valid m t)
      then err (invalid_row i)
      else elim (lookup (row_key t) dead) [ some j ↦ err (unreachable_row i j) | none ↦ rest ]

  -- The Machine that the loop of Compile starts from.
  abbrev pub empty_machine : Machine S E C T W
  empty_machine = record {
    rows = [];
    events = [];
    reflexive_state = ks.reflexive_type;
    reflexive_event = ke.reflexive_type;
  }

  unfoldable pub compile : List (Transition S E C T W) → Result CompileError (Machine S E C T W)
  compile ts =
      if not ks.strict_type
      then err interface_state
      else if not ke.strict_type
      then err interface_event
      else compile_rows 0 ts [] empty_machine

  unfoldable pub select_transition :
      Machine S E C T W → C → S → E → T → W → Outcome (Result Error (Transition S E C T W))
  select_transition m c from event d w =
      if not (m.reflexive_state || value from) || not (m.reflexive_event || value event)
      then returned (err (leaf invalid_key))
      else elim (select_rows (items (from, event) m.rows) c d w []) [
        | returned (ok t) ↦ returned (ok t)
        | returned (err reasons) ↦ returned (err (refusal reasons))
        | unwound u ↦ unwound u
      ]

  unfoldable pub next : Machine S E C T W → C → S → E → T → W → Outcome (S × Option Error)
  next m c from event d w = elim (select_transition m c from event d w) [
    | returned (ok t) ↦ returned (t.to, none)
    | returned (err e) ↦ returned (from, some e)
    | unwound u ↦ unwound u
  ]

  unfoldable pub fire : Machine S E C T W → C → S → E → T → W → Outcome (S × Option Error) × W
  fire m c from event d w = elim (select_transition m c from event d w) [
    | returned (ok t) ↦ perform t c from d w
    | returned (err e) ↦ (returned (from, some e), w)
    | unwound u ↦ (unwound u, w)
  ]

  -- The pairs that Permitted yields to a consumer that takes them all, and the panic that ends it.
  unfoldable pub permitted_events :
      Machine S E C T W → C → S → List E → T → W → List (E × S) × Option Unwind
  permitted_events m c from [] d w = ([], none)
  permitted_events m c from (e ∷ es) d w =
      let rest = permitted_events m c from es d w in
      elim (permitted_rows (items (from, e) m.rows) c d w) [
        | returned none ↦ rest
        | returned (some s) ↦ ((e, s) ∷ rest.0, rest.1)
        | unwound u ↦ ([], some u)
      ]

  unfoldable pub permitted : Machine S E C T W → C → S → T → W → List (E × S) × Option Unwind
  permitted m c from d w =
      if not (m.reflexive_state || value from)
      then ([], none)
      else permitted_events m c from (items from m.events) d w
