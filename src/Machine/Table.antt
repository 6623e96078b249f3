-- ===== src/Machine/Table.antt =====
-- The loop of Compile: what each row adds to the groups and to the event lists.
use statemachine.Prelude.{
  ℕ, ◌+◌, ◌≡◌, not, ◌&&◌, none, some, List, [], ◌∷◌, ◌++◌, append_assoc, append-nil, if◌then◌else◌,
  arith, true, false, ◌↔◌,
}
use statemachine.Errors.{ok}
use statemachine.Keys.Defs.{Key, both_key}
use statemachine.Keys.Maps.{
  Map, lookup, elem, elem-append, items, items-append_at, lookup-append_at,
}
use statemachine.Machine.Defs.{Transition, Machine, row_key, row_valid, add_row, compile_rows, mark}

module _ {S E C T W : Type 0} ⦃ks : Key S⦄ ⦃ke : Key E⦄ where
  -- The rows of a table with this From and Event, in table order.
  unfoldable pub matching : S → E → List (Transition S E C T W) → List (Transition S E C T W)
  matching s e [] = []
  matching s e (t ∷ ts) =
      if both_key.beq (row_key t) (s, e) then t ∷ matching s e ts else matching s e ts

  -- The events of a state in a table, each where it is first mentioned, but for those seen before.
  unfoldable pub mentions : S → List E → List (Transition S E C T W) → List E
  mentions s seen [] = []
  mentions s seen (t ∷ ts) =
      let more = t.event ∷ mentions s (seen ++ t.event ∷ []) ts in
      let same = mentions s seen ts in
      if ks.beq t.from s && not (elem t.event seen) then more else same

  pub compile_step :
      (i : ℕ) (t : Transition S E C T W) (ts : List (Transition S E C T W)) (dead : Map (S × E) ℕ)
      (m n : Machine S E C T W)
      → compile_rows i (t ∷ ts) dead m ≡ ok n
      → (row_valid m t ≡ true)
        × (lookup (row_key t) dead ≡ none)
        × (compile_rows (i + 1) ts (mark i t dead) (add_row t m) ≡ ok n)
  unfolding compile_rows
  compile_step i t ts dead m n h = ground arith

  items-add_row :
      (t : Transition S E C T W) (m : Machine S E C T W) (s : S) (e : E)
      → items (s, e) (add_row t m).rows ≡ (
          if both_key.beq (row_key t) (s, e)
          then items (s, e) m.rows ++ t ∷ []
          else items (s, e) m.rows)
  unfolding add_row
  items-add_row t m s e = items-append_at (s, e) (row_key t) t m.rows

  pub compile_rows-matching :
      (i : ℕ) (ts : List (Transition S E C T W)) (dead : Map (S × E) ℕ) (m n : Machine S E C T W)
      (s : S) (e : E)
      → compile_rows i ts dead m ≡ ok n
      → items (s, e) n.rows ≡ items (s, e) m.rows ++ matching s e ts
  unfolding matching compile_rows
  compile_rows-matching i [] dead m n s e h = ground (arith, append-nil (items (s, e) m.rows))
  compile_rows-matching i (t ∷ ts) dead m n s e h =
      let step = compile_step i t ts dead m n h in
      let rest = compile_rows-matching (i + 1) ts (mark i t dead) (add_row t m) n s e step.2 in
      ground (
        arith,
        rest,
        items-add_row t m s e,
        append_assoc (items (s, e) m.rows) (t ∷ []) (matching s e ts),
      )

  -- An event is listed for a state exactly where its group has a row.
  abbrev pub Listed : Machine S E C T W → Type 0
  Listed m = (s : S) (e : E) → (lookup (s, e) m.rows ≡ none) ↔ (elem e (items s m.events) ≡ false)

  lookup-add_row :
      (t : Transition S E C T W) (m : Machine S E C T W) (s : S) (e : E)
      → lookup (s, e) (add_row t m).rows ≡ (
          if both_key.beq (row_key t) (s, e)
          then some (items (s, e) m.rows ++ t ∷ [])
          else lookup (s, e) m.rows)
  unfolding add_row
  lookup-add_row t m s e = lookup-append_at (s, e) (row_key t) t m.rows

  events-add_row :
      (t : Transition S E C T W) (m : Machine S E C T W) (s : S)
      → Listed m
      → items s (add_row t m).events ≡ (
          if ks.beq t.from s && not (elem t.event (items s m.events))
          then items s m.events ++ t.event ∷ []
          else items s m.events)
  unfolding add_row
  events-add_row t m s l =
      ground
        (arith, ks.beq-eq t.from s, l t.from t.event, items-append_at s t.from t.event m.events)

  add_row-Listed :
      (t : Transition S E C T W) (m : Machine S E C T W) → Listed m → Listed (add_row t m)
  unfolding elem
  add_row-Listed t m l s e = ground (
    arith,
    events-add_row t m s l,
    lookup-add_row t m s e,
    l s e,
    ke.beq-eq t.event e,
    elem-append e (items s m.events) (t.event ∷ []),
  )

  pub compile_rows-mentions :
      (i : ℕ) (ts : List (Transition S E C T W)) (dead : Map (S × E) ℕ) (m n : Machine S E C T W)
      (s : S)
      → Listed m
      → compile_rows i ts dead m ≡ ok n
      → items s n.events ≡ items s m.events ++ mentions s (items s m.events) ts
  unfolding mentions compile_rows
  compile_rows-mentions i [] dead m n s l h = ground (arith, append-nil (items s m.events))
  compile_rows-mentions i (t ∷ ts) dead m n s l h =
      let step = compile_step i t ts dead m n h in
      let rest =
        compile_rows-mentions (i + 1) ts (mark i t dead) (add_row t m) n s (add_row-Listed t m l)
          step.2 in
      ground (
        arith,
        rest,
        events-add_row t m s l,
        append_assoc (items s m.events) (t.event ∷ [])
            (mentions s (items s m.events ++ t.event ∷ []) ts),
      )
