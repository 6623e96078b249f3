-- ===== src/Statechart/Select.antt =====
-- statechart/statechart.go: the row that selectTransition takes, from the active state up.
use statemachine.Prelude.{
  ℕ, zero, suc, ◌≤◌, Option, length, ◌≡◌, refl, inl, inr, none, some, List, [], ◌∷◌, ◌++◌, map, sym,
  subst, arith, Option-cases,
}
use statemachine.Errors.{
  Error, Unwind, Reply, accepts, fails, unwinds, Outcome, returned, unwound, Reply-cases,
}
use statemachine.Keys.Defs.{Key, both_key}
use statemachine.Keys.Maps.{Map, items}
use statemachine.Statechart.Shape.{Node, Shape}
use statemachine.Statechart.Lineage.{Lineage, root, up, states}
use statemachine.Statechart.Chart.{
  Transition, Selection, chosen, declined, out_of_range, leads_to, info_of, select_rows,
  select_handlers, Chart, ancestry, index_of, handlers, select_transition,
}

module _ {S E C T W : Type 0} ⦃ks : Key S⦄ ⦃ke : Key E⦄ (s : Shape S) (source : S) (event : E)
    (c : C) (d : T) (w : W) where
  -- What the Guard of a row says for one handler; a row without a Guard applies.
  abbrev pub verdict : S → Transition S E C T W → S → Reply
  verdict handler t to = elim t.guard [
    | none ↦ accepts
    | some g ↦ g c (info_of s source event c d w handler t to) d w
  ]

  -- The rows that may handle the event, in the order of the hierarchy, then of their declaration.
  abbrev pub candidates :
      Map (S × E) (List (Transition S E C T W)) → List S → List (S × Transition S E C T W)
  candidates rows [] = []
  candidates rows (h ∷ hs) = map (λ t. (h, t)) (items (h, event) rows) ++ candidates rows hs

  -- The first candidate whose Guard does not decline decides, behind the reasons of those before.
  pub data Picks
      : List (S × Transition S E C T W) → List Error → Outcome (Selection S E C T W) → Type 0 where
    nothing : {reasons : List Error} → Picks [] reasons (returned (declined reasons))
    takes :
        {reasons : List Error} {xs : List (S × Transition S E C T W)} (h : S)
        (t : Transition S E C T W) (to : S)
        → leads_to s source event c d w t ≡ some to
        → verdict h t to ≡ accepts
        → Picks ((h, t) ∷ xs) reasons (returned (chosen t (info_of s source event c d w h t to)))
    breaks :
        {reasons : List Error} {xs : List (S × Transition S E C T W)} (h : S)
        (t : Transition S E C T W) (to : S) (u : Unwind)
        → leads_to s source event c d w t ≡ some to
        → verdict h t to ≡ unwinds u
        → Picks ((h, t) ∷ xs) reasons (unwound u)
    strays :
        {reasons : List Error} {xs : List (S × Transition S E C T W)} (h : S)
        (t : Transition S E C T W)
        → leads_to s source event c d w t ≡ none
        → Picks ((h, t) ∷ xs) reasons (unwound out_of_range)
    passes :
        {reasons : List Error} {xs : List (S × Transition S E C T W)}
        {o : Outcome (Selection S E C T W)} (h : S) (t : Transition S E C T W) (to : S) (e : Error)
        → leads_to s source event c d w t ≡ some to
        → verdict h t to ≡ fails e
        → Picks xs (reasons ++ e ∷ []) o
        → Picks ((h, t) ∷ xs) reasons o

  -- Some rows in front of others: they decide, or hand their reasons on.
  abbrev Decides :
      List (S × Transition S E C T W) → List Error → Outcome (Selection S E C T W) → Type 0
  Decides xs reasons (returned (declined more)) =
      (ys : List (S × Transition S E C T W)) (o : Outcome (Selection S E C T W))
      → Picks ys more o
      → Picks (xs ++ ys) reasons o
  Decides xs reasons (returned (chosen t i)) =
      (ys : List (S × Transition S E C T W)) → Picks (xs ++ ys) reasons (returned (chosen t i))
  Decides xs reasons (unwound u) =
      (ys : List (S × Transition S E C T W)) → Picks (xs ++ ys) reasons (unwound u)

  Decides-passes :
      (h : S) (t : Transition S E C T W) (to : S) (e : Error) (xs : List (S × Transition S E C T W))
      (reasons : List Error) (o : Outcome (Selection S E C T W))
      → leads_to s source event c d w t ≡ some to
      → verdict h t to ≡ fails e
      → Decides xs (reasons ++ e ∷ []) o
      → Decides ((h, t) ∷ xs) reasons o
  Decides-passes h t to e xs reasons (returned (declined more)) l v k =
      λ ys o p. passes h t to e l v (k ys o p)
  Decides-passes h t to e xs reasons (returned (chosen r i)) l v k =
      λ ys. passes h t to e l v (k ys)
  Decides-passes h t to e xs reasons (unwound u) l v k = λ ys. passes h t to e l v (k ys)

  select_rows-Decides :
      (h : S) (ts : List (Transition S E C T W)) (reasons : List Error)
      → Decides (map (λ t. (h, t)) ts) reasons (select_rows s source event c d w h ts reasons)
  unfolding select_rows
  select_rows-Decides h [] reasons = λ ys o p. p
  select_rows-Decides h (t ∷ ts) reasons =
      let later = λ (e : Error). select_rows-Decides h ts (reasons ++ e ∷ []) in
      let by =
        λ (o : Outcome (Selection S E C T W))
            (q : select_rows s source event c d w h (t ∷ ts) reasons ≡ o)
            (k : Decides (map (λ x. (h, x)) (t ∷ ts)) reasons o).
          subst (λ x. Decides (map (λ y. (h, y)) (t ∷ ts)) reasons x) (sym q) k in
      elim (Option-cases (leads_to s source event c d w t)) [
        | inl gone ↦ by (unwound out_of_range) (rw (gone, select_rows) refl) (λ ys. strays h t gone)
        | inr (to, found) ↦
            let at = info_of s source event c d w h t to in
            elim (Reply-cases (verdict h t to)) [
              | inl fits ↦
                  by (returned (chosen t at)) (ground (arith, found, fits))
                    (λ ys. takes h t to found fits)
              | inr (inl (e, refuses)) ↦
                  let o = select_rows s source event c d w h ts (reasons ++ e ∷ []) in
                  by o (ground (arith, found, refuses))
                    (Decides-passes h t to e _ reasons o found refuses (later e))
              | inr (inr (u, out)) ↦
                  by (unwound u) (ground (arith, found, out)) (λ ys. breaks h t to u found out)
            ]
      ]

  -- Both loops, for the states of any list.
  select_handlers-Picks :
      (rows : Map (S × E) (List (Transition S E C T W))) (hs : List S) (reasons : List Error)
      → Picks (candidates rows hs) reasons (select_handlers s source event c d w rows hs reasons)
  unfolding select_handlers
  select_handlers-Picks rows [] reasons = nothing
  select_handlers-Picks rows (h ∷ hs) reasons =
      go (select_rows s source event c d w h (items (h, event) rows) reasons) refl
        (select_rows-Decides h (items (h, event) rows) reasons)
        (λ more. select_handlers-Picks rows hs more)
    where
      go :
          (o : Outcome (Selection S E C T W))
          → select_rows s source event c d w h (items (h, event) rows) reasons ≡ o
          → Decides (map (λ t. (h, t)) (items (h, event) rows)) reasons o
          → ((more : List Error)
              → Picks (candidates rows hs) more (select_handlers s source event c d w rows hs more))
          → Picks
              (candidates rows (h ∷ hs))
              reasons
              (select_handlers s source event c d w rows (h ∷ hs) reasons)
      go (returned (declined more)) e k ih =
          rw (e, select_handlers) (k (candidates rows hs) _ (ih more))
      go (returned (chosen t i)) e k ih = rw (e, select_handlers) (k (candidates rows hs))
      go (unwound u) e k ih = rw (e, select_handlers) (k (candidates rows hs))

module _ {S : Type 0} where
  ancestry-states :
      (ns : List (Node S)) (fuel : ℕ) (i : Option ℕ) (xs : List (ℕ × Node S))
      → Lineage ns i xs
      → length xs ≤ fuel
      → ancestry fuel ns i ≡ some (states xs)
  unfolding ancestry
  ancestry-states ns fuel none xs root enough = refl
  ancestry-states ns zero _ _ (up n e k l) enough = absurd (omega (arith, enough))
  ancestry-states ns (suc fuel) _ _ (up {i} {xs} n e k l) enough =
      let rest = ancestry-states ns fuel n.parent xs l (omega (arith, enough)) in
      rw (e, rest, ancestry) refl

module _ {S : Type 0} ⦃ks : Key S⦄ where
  handlers-states :
      (s : Shape S) (source : S) (xs : List (ℕ × Node S))
      → Lineage s.nodes (some (index_of s source)) xs
      → handlers s source ≡ some (states xs)
  unfolding handlers
  handlers-states s source _ (up {xs} n e k l) =
      let line = up n e k l in
      let all =
        ancestry-states s.nodes (suc n.depth) (some (index_of s source)) _ line
          (omega (arith, k)) in
      ground (arith, e, all)

-- In a chart whose shape gives the active state a lineage, selectTransition takes the first row that
-- applies among those for the event of the active state, then of its parent, and so on up to the root,
-- each in the order of declaration, whatever rows decline before it; where every row declines, the
-- reasons are all of theirs, in that order; a Guard that unwinds ends the search.
pub select_transition-Picks :
    {S E C T W : Type 0} ⦃ks : Key S⦄ ⦃ke : Key E⦄ (chart : Chart S E C T W) (s : Shape S)
    (source : S) (event : E) (c : C) (d : T) (w : W) (xs : List (ℕ × Node S))
    → chart.shape ≡ some s
    → Lineage s.nodes (some (index_of s source)) xs
    → Picks s source event c d w
        (candidates s source event c d w chart.rows (states xs))
        []
        (select_transition chart c source event d w)
unfolding select_transition
select_transition-Picks chart s source event c d w xs h l =
    let picks = select_handlers-Picks s source event c d w chart.rows (states xs) [] in
    let same : select_transition chart c source event d w
        ≡ select_handlers s source event c d w chart.rows (states xs) [] =
      ground (arith, h, handlers-states s source xs l) in
    subst
      (λ o.
        Picks s source event c d w (candidates s source event c d w chart.rows (states xs)) [] o)
      (sym same) picks
