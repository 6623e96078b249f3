-- ===== src/Supervised/DeclaredRows.antt =====
-- supervised/definition.go: the pass of Compile over the rows.
use statemachine.Prelude.{
  ℕ, ◌+◌, ◌==◌, Bool, true, false, not, ◌&&◌, ◌||◌, Option, none, some, List, [], ◌∷◌, ◌++◌,
  if◌then◌else◌,
}
use statemachine.Keys.Defs.{Key, both_key}
use statemachine.Keys.Maps.{Map, elem, lookup, insert, append_at}
use statemachine.Supervised.Machine.{Transition, Row}
use statemachine.Supervised.Snapshots.{is_some}
use statemachine.Supervised.Declarations

abbrev pub id_at : ℕ → Map ℕ ℕ → Option ℕ
id_at id [] = none
id_at id ((i, j) ∷ at) = let rest = id_at id at in if i == id then some j else rest

module _ {S E : Type 0} where
  abbrev pub when : Bool → Declarations.Defect S E → List (Declarations.Defect S E)
  when true d = d ∷ []
  when false d = []

  abbrev pub id_defects : ℕ → ℕ → Map ℕ ℕ → List (Declarations.Defect S E)
  id_defects i id at = if id == 0 then Declarations.empty_row_id i ∷ [] else elim (id_at id at) [
    | none ↦ []
    | some previous ↦ Declarations.duplicate_row_id i previous ∷ []
  ]

module _ {S E C T W : Type 0} ⦃ks : Key S⦄ ⦃ke : Key E⦄ where
  abbrev pub place_of : Transition S E C T W → S × E
  place_of t = (t.from, t.event)

  -- The map `unguarded`: the first row of each place without a Guard.
  abbrev pub mark_unguarded : ℕ → Transition S E C T W → Map (S × E) ℕ → Map (S × E) ℕ
  mark_unguarded i t unguarded =
      if is_some t.guard || is_some (lookup (place_of t) unguarded)
      then unguarded
      else insert (place_of t) i unguarded

  -- The map idAt.
  abbrev pub mark_id : ℕ → Transition S E C T W → Map ℕ ℕ → Map ℕ ℕ
  mark_id i t [] = if t.id == 0 then [] else (t.id, i) ∷ []
  mark_id i t ((id, j) ∷ at) =
      let rest = mark_id i t at in if id == t.id then (id, j) ∷ at else (id, j) ∷ rest

  -- The defects of the row at index i.
  unfoldable pub row_defects :
      ℕ
      → Transition S E C T W
      → Map S ℕ
      → Map S Bool
      → Map E ℕ
      → List (S × E)
      → Map ℕ ℕ
      → Map (S × E) ℕ
      → List (Declarations.Defect S E)
  row_defects i t states known events refused ids unguarded =
      id_defects i t.id ids
      ++ (when (not (is_some (lookup t.from states))) (Declarations.undeclared_from i)
          ++ (when (not (is_some (lookup t.to states))) (Declarations.undeclared_to i)
              ++ (when (not (is_some (lookup t.event events))) (Declarations.undeclared_event i)
                  ++ (when
                        (is_some t.issue && not (is_some t.verify)
                          || not (is_some t.issue) && is_some t.verify)
                        (Declarations.half_external i)
                      ++ (Declarations.nil_callbacks (Declarations.nil_precondition i) 0
                            t.preconditions
                          ++ ((elim (lookup (place_of t) unguarded) [
                            | none ↦ []
                            | some previous ↦ Declarations.hidden_row i previous ∷ []
                          ])
                              ++ (when (elem (place_of t) refused) (Declarations.refused_row i)
                                  ++ (elim (lookup t.from states) [
                                    | none ↦ []
                                    | some _ ↦ elim (lookup t.from known) [
                                      | none ↦ []
                                      | some terminal ↦
                                          when terminal (Declarations.leaves_terminal i)
                                    ]
                                  ]))))))))

  abbrev pub row_of : Transition S E C T W → Row S E C T W
  row_of t = record {
    id = t.id;
    from = t.from;
    event = t.event;
    to = t.to;
    guard = t.guard;
    preconditions = Declarations.callbacks t.preconditions;
    issue = t.issue;
    verify = t.verify;
  }

  -- The rows that enter the Machine.
  abbrev pub add_declared :
      Map S ℕ
      → Map E ℕ
      → Transition S E C T W
      → Map (S × E) (List (Row S E C T W))
      → Map (S × E) (List (Row S E C T W))
  add_declared states events t rows =
      if is_some (lookup t.from states)
        && (is_some (lookup t.to states) && is_some (lookup t.event events))
      then append_at (place_of t) (row_of t) rows
      else rows

  -- The loop over the rows, from index i on.
  unfoldable pub gather_rows :
      ℕ
      → List (Transition S E C T W)
      → Map S ℕ
      → Map S Bool
      → Map E ℕ
      → List (S × E)
      → Map ℕ ℕ
      → Map (S × E) ℕ
      → Map (S × E) (List (Row S E C T W))
      → List (Declarations.Defect S E) × Map (S × E) (List (Row S E C T W))
  unfolding row_defects
  gather_rows i [] states known events refused ids unguarded rows = ([], rows)
  gather_rows i (t ∷ ts) states known events refused ids unguarded rows =
      let rest =
        gather_rows (i + 1) ts states known events refused (mark_id i t ids)
          (mark_unguarded i t unguarded) (add_declared states events t rows) in
      (row_defects i t states known events refused ids unguarded ++ rest.0, rest.1)

  abbrev pub any_issue : List (Transition S E C T W) → Bool
  any_issue [] = false
  any_issue (t ∷ ts) = is_some t.issue || any_issue ts
