-- ===== src/Machine/Compile.antt =====
-- What Compile accepts, and what the Machine that it builds holds.
use statemachine.Prelude.{
  ℕ, ◌+◌, ◌≡◌, refl, none, List, [], ◌∷◌, arith, true, false, ◌↔◌, All, Pairs,
}
use statemachine.Errors.{ok}
use statemachine.Keys.Defs.{Key, value, both_key}
use statemachine.Keys.Maps.{Map, lookup, elem, items, lookup-insert}
use statemachine.Machine.Defs.{
  Transition, Machine, row_key, row_valid, add_row, compile_rows, compile, unguarded, mark,
  empty_machine,
}
use statemachine.Machine.Table.{
  matching, mentions, compile_step, compile_rows-matching, compile_rows-mentions, Listed,
}

module _ {S E C T W : Type 0} ⦃ks : Key S⦄ ⦃ke : Key E⦄ where
  compile_loop :
      (ts : List (Transition S E C T W)) (n : Machine S E C T W)
      → compile ts ≡ ok n
      → (ks.strict_type ≡ true)
        × (ke.strict_type ≡ true)
        × (compile_rows 0 ts [] (empty_machine) ≡ ok n)
  unfolding compile
  compile_loop ts n h = ground arith

  -- The groups of a compiled Machine are the rows of the table with that From and Event, all of
  -- them and in table order.
  pub compile-matching :
      (ts : List (Transition S E C T W)) (n : Machine S E C T W) (s : S) (e : E)
      → compile ts ≡ ok n
      → items (s, e) n.rows ≡ matching s e ts
  unfolding items lookup
  compile-matching ts n s e h =
      compile_rows-matching 0 ts [] empty_machine n s e (compile_loop ts n h).2

  empty-Listed : Listed (empty_machine {S = S} {E = E} {C = C} {T = T} {W = W})
  unfolding items lookup elem
  empty-Listed s e = (λ _. refl, λ _. refl)

  -- The events of a state in a compiled Machine are those that its rows mention, each once, in the
  -- order of their first rows.
  pub compile-mentions :
      (ts : List (Transition S E C T W)) (n : Machine S E C T W) (s : S)
      → compile ts ≡ ok n
      → items s n.events ≡ mentions s [] ts
  unfolding items lookup
  compile-mentions ts n s h =
      compile_rows-mentions 0 ts [] empty_machine n s empty-Listed (compile_loop ts n h).2

  -- The keys of a row, as Compile wants them.
  abbrev pub ValidRow : Transition S E C T W → Type 0
  ValidRow t = (value t.from ≡ true) × (value t.event ≡ true) × (value t.to ≡ true)

  -- A row hides every later one of its group unless it has a Guard.
  abbrev pub Open : Transition S E C T W → Transition S E C T W → Type 0
  Open t u = unguarded t ≡ true → both_key.beq (row_key t) (row_key u) ≡ false

  abbrev Free : Map (S × E) ℕ → Transition S E C T W → Type 0
  Free dead u = lookup (row_key u) dead ≡ none

  Free-mark :
      (i : ℕ) (t : Transition S E C T W) (dead : Map (S × E) ℕ) (us : List (Transition S E C T W))
      → All (Free (mark i t dead)) us ↔ (All (Open t) us × All (Free dead) us)
  Free-mark i t dead [] = (λ _. (tt, tt), λ _. tt)
  Free-mark i t dead (u ∷ us) =
      let rest = Free-mark i t dead us in
      ground (arith, rest, lookup-insert (row_key u) (row_key t) i dead)

  abbrev Accepts : ℕ → List (Transition S E C T W) → Map (S × E) ℕ → Machine S E C T W → Type 0
  Accepts i ts dead m = (n : Machine S E C T W) × (compile_rows i ts dead m ≡ ok n)

  abbrev Valid : Machine S E C T W → Transition S E C T W → Type 0
  Valid m t = row_valid m t ≡ true

  Valid-add_row :
      (t : Transition S E C T W) (m : Machine S E C T W) (us : List (Transition S E C T W))
      → All (Valid (add_row t m)) us ↔ All (Valid m) us
  unfolding row_valid add_row
  Valid-add_row t m [] = (λ _. tt, λ _. tt)
  Valid-add_row t m (u ∷ us) = let rest = Valid-add_row t m us in ground (arith, rest)

  compile_rows-Accepts :
      (i : ℕ) (ts : List (Transition S E C T W)) (dead : Map (S × E) ℕ) (m : Machine S E C T W)
      → Accepts i ts dead m ↔ (All (Valid m) ts × Pairs Open ts × All (Free dead) ts)
  unfolding compile_rows
  compile_rows-Accepts i [] dead m = (λ _. (tt, tt, tt), λ _. (m, refl))
  compile_rows-Accepts i (t ∷ ts) dead m =
      let rest = compile_rows-Accepts (i + 1) ts (mark i t dead) (add_row t m) in
      let free = Free-mark i t dead ts in
      let valid = Valid-add_row t m ts in
      (
        λ (n, h).
            let step = compile_step i t ts dead m n h in
            let r = rest.0 (n, step.2) in
            ((step.0, valid.0 r.0), ((free.0 r.2).0, r.1), (step.1, (free.0 r.2).1)),
        λ (v, p, f).
            let r = rest.1 (valid.1 v.1, p.1, free.1 (p.0, f.1)) in (r.0, ground (arith, r.1)),
      )

  Valid-ValidRow : (t : Transition S E C T W) → Valid empty_machine t ↔ ValidRow t
  unfolding row_valid
  Valid-ValidRow t =
      ground (arith, ks.reflexive_all t.from, ks.reflexive_all t.to, ke.reflexive_all t.event)

  all-ValidRow : (ts : List (Transition S E C T W)) → All (Valid empty_machine) ts ↔ All ValidRow ts
  all-ValidRow [] = (λ _. tt, λ _. tt)
  all-ValidRow (t ∷ ts) =
      let rest = all-ValidRow ts in
      let head = Valid-ValidRow t in (λ v. (head.0 v.0, rest.0 v.1), λ v. (head.1 v.0, rest.1 v.1))

  all-Free : (ts : List (Transition S E C T W)) → All (Free []) ts
  unfolding lookup
  all-Free [] = tt
  all-Free (t ∷ ts) = (refl, all-Free ts)

  -- Compile accepts exactly the tables over key types without interfaces in which every state and
  -- event equals itself and no row stands behind a row of its group that has no Guard.
  pub compile-accepts :
      (ts : List (Transition S E C T W))
      → ((n : Machine S E C T W) × (compile ts ≡ ok n))
        ↔ ((ks.strict_type ≡ true) × (ke.strict_type ≡ true) × All ValidRow ts × Pairs Open ts)
  unfolding compile
  compile-accepts ts =
      let loop = compile_rows-Accepts 0 ts [] empty_machine in
      let valid = all-ValidRow ts in
      (
        λ (n, h).
            let c = compile_loop ts n h in let r = loop.0 (n, c.2) in (c.0, c.1, valid.0 r.0, r.1),
        λ (s, e, v, p). let r = loop.1 (valid.1 v, p, all-Free ts) in (r.0, simp (s, e) r.1),
      )
