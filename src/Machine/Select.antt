-- ===== src/Machine/Select.antt =====
-- How a row is chosen: selectTransition against a relation, and the four operations that use it.
use statemachine.Prelude.{
  ◌≡◌, refl, Option, none, some, List, [], ◌∷◌, ◌++◌, append_assoc, append-nil, arith, inl, inr,
}
use statemachine.Errors.{
  Reply-cases, Error, Unwind, Reply, accepts, fails, unwinds, Outcome, returned, unwound, Result,
  ok, err,
}
use statemachine.Keys.Defs.{both_key}
use statemachine.Machine.Defs.{Transition, select_rows}

module _ {S E C T W : Type 0} where
  -- The result of the loop for such a choice, behind the reasons gathered so far.
  abbrev pub report :
      List Error
      → List Error
      → Outcome (Option (Transition S E C T W))
      → Outcome (Result (List Error) (Transition S E C T W))
  report before es (returned none) = returned (err (before ++ es))
  report before es (returned (some t)) = returned (ok t)
  report before es (unwound u) = unwound u

  report-append :
      (before : List Error) (e : Error) (es : List Error)
      (r : Outcome (Option (Transition S E C T W)))
      → report (before ++ e ∷ []) es r ≡ report before (e ∷ es) r
  report-append before e es (returned none) = ground (arith, append_assoc before (e ∷ []) es)
  report-append before e es (returned (some t)) = refl
  report-append before e es (unwound u) = refl

module _ {S E C T W : Type 0} (c : C) (d : T) (w : W) where
  -- What a row answers: a nil Guard always applies.
  abbrev pub answer : Transition S E C T W → Reply
  answer t = elim t.guard [ none ↦ accepts | some g ↦ g c d w ]

  -- What the rows of a group come to: the first that applies, behind rows that decline; every row's
  -- reason, in order; or the Guard that unwinds.
  pub data Picks
      : List (Transition S E C T W)
        → List Error
        → Outcome (Option (Transition S E C T W))
        → Type 0 where
    exhausted : Picks [] [] (returned none)
    first :
        {t : Transition S E C T W} {ts : List (Transition S E C T W)}
        → answer t ≡ accepts
        → Picks (t ∷ ts) [] (returned (some t))
    broken :
        {t : Transition S E C T W} {ts : List (Transition S E C T W)} {u : Unwind}
        → answer t ≡ unwinds u
        → Picks (t ∷ ts) [] (unwound u)
    later :
        {t : Transition S E C T W} {ts : List (Transition S E C T W)} {e : Error} {es : List Error}
        {r : Outcome (Option (Transition S E C T W))}
        → answer t ≡ fails e
        → Picks ts es r
        → Picks (t ∷ ts) (e ∷ es) r

  -- The loop picks as the relation says, whatever reasons were gathered before.
  pub select_rows-Picks :
      (ts : List (Transition S E C T W)) (before : List Error)
      → (es : List Error) × (r : Outcome (Option (Transition S E C T W))) × Picks ts es r
        × (select_rows ts c d w before ≡ report before es r)
  unfolding select_rows
  select_rows-Picks [] before = ([], returned none, exhausted, ground (arith, append-nil before))
  select_rows-Picks (t ∷ ts) before = elim (Reply-cases (answer t)) [
    | inl a ↦ ([], returned (some t), first a, ground arith)
    | inr (inl (e, h)) ↦
        let (es, r, p, q) = select_rows-Picks ts (before ++ e ∷ []) in
        (e ∷ es, r, later h p, ground (arith, q, report-append before e es r))
    | inr (inr (u, h)) ↦ ([], unwound u, broken h, ground arith)
  ]

  -- The relation settles the result.
  pub Picks-select_rows :
      {ts : List (Transition S E C T W)} {es : List Error}
      {r : Outcome (Option (Transition S E C T W))} (before : List Error)
      → Picks ts es r
      → select_rows ts c d w before ≡ report before es r
  unfolding select_rows
  Picks-select_rows before exhausted = ground (arith, append-nil before)
  Picks-select_rows before (first a) = ground arith
  Picks-select_rows before (broken h) = ground arith
  Picks-select_rows before (later {e = e} {es = es} {r = r} h p) =
      ground (arith, Picks-select_rows (before ++ e ∷ []) p, report-append before e es r)
