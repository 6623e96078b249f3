-- ===== src/Machine/Refine.antt =====
-- Next, fire and Permitted of a compiled Machine against the table that it was compiled from.
use statemachine.Prelude.{
  ◌≡◌, refl, Option, none, some, List, [], ◌∷◌, ◌++◌, arith, inl, inr, true, All,
}
use statemachine.Errors.{
  Reply-cases, Error, Unwind, Reply, accepts, Outcome, returned, unwound, Result, ok, err,
}
use statemachine.Keys.Defs.{Key, value, both_key}
use statemachine.Keys.Maps.{items}
use statemachine.Machine.Defs.{
  Transition, Machine, compile, refusal, select_rows, select_transition, next, permitted_rows,
  permitted_events, permitted,
}
use statemachine.Machine.Table.{matching, mentions}
use statemachine.Machine.Compile.{compile-matching, compile-mentions, compile-accepts, ValidRow}
use statemachine.Machine.Select.{answer, Picks, select_rows-Picks, report}

-- What Next makes of a choice in a state.
abbrev pub planned :
    {S E C T W : Type 0}
    → S
    → List Error
    → Outcome (Option (Transition S E C T W))
    → Outcome (S × Option Error)
planned s es (returned none) = returned (s, some (refusal es))
planned s es (returned (some t)) = returned (t.to, none)
planned s es (unwound u) = unwound u

module _ {S E C T W : Type 0} ⦃ks : Key S⦄ ⦃ke : Key E⦄ where
  select-report :
      (ts : List (Transition S E C T W)) (m : Machine S E C T W) (c : C) (s : S) (e : E) (d : T)
      (w : W) (es : List Error) (r : Outcome (Option (Transition S E C T W)))
      → items (s, e) m.rows ≡ ts
      → value s ≡ true
      → value e ≡ true
      → select_rows ts c d w [] ≡ report [] es r
      → next m c s e d w ≡ planned s es r
  unfolding next select_transition
  select-report ts m c s e d w es (returned none) i vs ve h = ground arith
  select-report ts m c s e d w es (returned (some t)) i vs ve h = ground arith
  select-report ts m c s e d w es (unwound u) i vs ve h = ground arith

  -- In a valid state and on a valid event, Next of a compiled Machine decides by the table: over the
  -- rows with this From and Event, in table order, the first that applies names the destination; where all decline, the state stays
  -- and the error is the refusal with every reason in order; a Guard that unwinds ends the call.
  pub next-table :
      (ts : List (Transition S E C T W)) (m : Machine S E C T W) (c : C) (s : S) (e : E) (d : T)
      (w : W)
      → compile ts ≡ ok m
      → value s ≡ true
      → value e ≡ true
      → (es : List Error) × (r : Outcome (Option (Transition S E C T W))) × Picks c d w
          (matching s e ts)
          es
          r
        × (next m c s e d w ≡ planned s es r)
  next-table ts m c s e d w h vs ve =
      let (es, r, p, q) = select_rows-Picks c d w (matching s e ts) [] in
      (
        es,
        r,
        p,
        select-report (matching s e ts) m c s e d w es r (compile-matching ts m s e h) vs ve q,
      )

  -- What the Do of a row answers, and leaves of the world; a row without Do answers nil.
  abbrev pub ran : Transition S E C T W → C → T → W → Reply × W
  ran t c d w = elim t.effect [ none ↦ (accepts, w) | some f ↦ f c d w ]

  -- The events of a state and where Next leads on each; a refused event is left out, and a Guard
  -- that unwinds ends the sequence.
  unfoldable pub offers : Machine S E C T W → C → S → List E → T → W → List (E × S) × Option Unwind
  offers m c s [] d w = ([], none)
  offers m c s (e ∷ es) d w =
      let rest = offers m c s es d w in
      elim (next m c s e d w) [
        | returned (s', o) ↦ elim o [ none ↦ ((e, s') ∷ rest.0, rest.1) | some x ↦ rest ]
        | unwound u ↦ ([], some u)
      ]

  landing : Outcome (Result (List Error) (Transition S E C T W)) → Outcome (Option S)
  landing (returned (ok t)) = returned (some t.to)
  landing (returned (err es)) = returned none
  landing (unwound u) = unwound u

  permitted_rows-select :
      (ts : List (Transition S E C T W)) (c : C) (d : T) (w : W) (before : List Error)
      → permitted_rows ts c d w ≡ landing (select_rows ts c d w before)
  unfolding permitted_rows select_rows landing
  permitted_rows-select [] c d w before = refl
  permitted_rows-select (t ∷ ts) c d w before = elim (Reply-cases (answer c d w t)) [
    | inl a ↦ ground arith
    | inr (inl (e, h)) ↦ ground (arith, permitted_rows-select ts c d w (before ++ e ∷ []))
    | inr (inr (u, h)) ↦ ground arith
  ]

  permitted_events-offers :
      (m : Machine S E C T W) (c : C) (s : S) (es : List E) (d : T) (w : W)
      → value s ≡ true
      → All (λ e. value e ≡ true) es
      → permitted_events m c s es d w ≡ offers m c s es d w
  unfolding permitted_events offers next select_transition landing
  permitted_events-offers m c s [] d w vs ve = refl
  permitted_events-offers m c s (e ∷ es) d w vs ve = ground (
    arith,
    permitted_rows-select (items (s, e) m.rows) c d w [],
    permitted_events-offers m c s es d w vs ve.1,
  )

  mentions-value :
      (ts : List (Transition S E C T W)) (s : S) (seen : List E)
      → All ValidRow ts
      → All (λ e. value e ≡ true) (mentions s seen ts)
  unfolding mentions
  mentions-value [] s seen v = tt
  mentions-value (t ∷ ts) s seen v =
      ground (arith, mentions-value ts s seen v.1, mentions-value ts s (seen ++ t.event ∷ []) v.1)

  -- Permitted of a compiled Machine in a valid state yields, for the events that the table mentions
  -- for the state, each once and in order of first mention, exactly those on which Next succeeds,
  -- with the destination that Next reports.
  pub permitted-next :
      (ts : List (Transition S E C T W)) (m : Machine S E C T W) (c : C) (s : S) (d : T) (w : W)
      → compile ts ≡ ok m
      → value s ≡ true
      → permitted m c s d w ≡ offers m c s (mentions s [] ts) d w
  unfolding permitted
  permitted-next ts m c s d w h vs =
      let accepted = (compile-accepts ts).0 (m, h) in
      ground (
        arith,
        compile-mentions ts m s h,
        permitted_events-offers m c s (mentions s [] ts) d w vs (mentions-value ts s [] accepted.2),
      )
