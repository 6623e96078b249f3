-- ===== src/Supervised/Passing.antt =====
-- supervised/execution.go: which callbacks an operation called, one after another, and which of them
-- accepted; and what a commit leaves.
use statemachine.Prelude.{
  ap, ℕ, ◌+◌, ◌≡◌, inl, inr, refl, Bool, true, false, Option, none, some, List, [], ◌∷◌, subst,
  Option-cases, arith,
}
use statemachine.Errors.{Error, accepts, fails, unwinds, exited, panicked, threw, Reply}
use statemachine.Supervised.Types.{Phase, Change, Result}
use statemachine.Supervised.Sections.{stamp}
use statemachine.Supervised.Machine.{Check, Response, finishes, overruns}
use statemachine.Supervised.Outcomes.{latch_result, enter_callback, commit}
use statemachine.Supervised.Calls.{
  Surroundings, CallbackOutcome, published, timed, blamed_cause, section, returned_to, invoke,
  latching, run_checks,
}
use statemachine.Supervised.Decide.{World, commit_call, then_checks}

module _ {S E V : Type 0} (env : Surroundings S E V) where
  published-none : (reply : Reply) → (published reply).error ≡ none → reply ≡ accepts
  published-none accepts h = refl
  published-none (fails e) h = absurd (ground (arith, h))
  published-none (unwinds exited) h = absurd (ground (arith, h))
  published-none (unwinds (panicked v)) h = absurd (ground (arith, h))
  published-none (unwinds (threw e)) h = absurd (ground (arith, h))

  timed-none :
      (o : CallbackOutcome) (over : Option Error) → (timed o over).error ≡ none → o.error ≡ none
  timed-none o none h = h
  timed-none o (some e) h = elim (Option-cases o.error) [
    | inl quiet ↦ quiet
    | inr (f, failed) ↦ absurd (ground (arith, h, failed))
  ]

  returned_to-none :
      (id : ℕ) (r : Response) (w : World S E V)
      → (returned_to env id r w).0.error ≡ none
      → r ≡ finishes accepts
  unfolding returned_to
  returned_to-none id (overruns e) w h = absurd (ground (arith, h))
  returned_to-none id (finishes reply) w h =
      ap finishes (published-none reply (timed-none (published reply) _ h))

  -- From this world the operation entered a callback, which was called in the world that the entry
  -- leaves, and accepted there.
  abbrev pub Called :
      ℕ → Change S E → Phase → (World S E V → Response × World S E V) → World S E V → Type 0
  Called id change phase callback w =
      let p = section env (λ s now. enter_callback s id change phase) w in
      (env.over w ≡ none) × (p.0 ≡ none) × ((callback p.1).0 ≡ finishes accepts)

  pub invoke-Called :
      (id : ℕ) (change : Change S E) (phase : Phase)
      (callback : World S E V → Response × World S E V) (w : World S E V)
      → (invoke env id change phase callback w).0.error ≡ none
      → Called id change phase callback w
  unfolding invoke
  invoke-Called id change phase callback w h =
      let p = section env (λ s now. enter_callback s id change phase) w in
      elim (Option-cases (env.over w)) [
        | inr (e, over) ↦ absurd (ground (arith, h, over))
        | inl goes_on ↦ elim (Option-cases p.0) [
          | inr (e, refused) ↦ absurd (ground (arith, h, goes_on, refused))
          | inl enters ↦ (
            goes_on,
            enters,
            returned_to-none id (callback p.1).0 (callback p.1).1
                (ground (arith, h, goes_on, enters)),
          )
        ]
      ]

  pub latching-committed :
      (id : ℕ) (base : Result S E) (change : Change S E) (phase : Phase) (cause : Error) (u : Bool)
      (w : World S E V)
      → (latching env id base change phase cause u w).0.committed ≡ base.committed
  unfolding section latch_result
  latching-committed id base change phase cause u w = ground arith

  -- A commit of the change in some world, and the Result and the world that it leaves: the state is the
  -- change's destination, the revision one more, and nothing is pending.
  abbrev pub Commits : Result S E → Change S E → World S E V → Result S E × World S E V → Type 0
  Commits base change w (r, w') =
      (w'.0.state ≡ change.to)
      × (w'.0.revision ≡ (env.meanwhile w).0.revision + 1)
      × (w'.0.pending ≡ none)
      × (r.change ≡ base.change)
      × (r.to ≡ base.to)
      × (r.revision ≡ w'.0.revision)

  pub commit_call-Commits :
      (id : ℕ) (base : Result S E) (change : Change S E) (issued verified : Bool) (w : World S E V)
      → base.committed ≡ false
      → (commit_call env id base change issued verified w).0.committed ≡ true
      → Commits base change w (commit_call env id base change issued verified w)
  unfolding commit_call section commit latch_result stamp
  commit_call-Commits id base change issued verified w b h = (
    ground (arith, b, h),
    ground (arith, b, h),
    ground (arith, b, h),
    ground (arith, b, h),
    ground (arith, b, h),
    ground (arith, b, h),
  )

module _ {S E C T V : Type 0} (env : Surroundings S E V) where
  -- The checks were called with the change, one behind the other, from the one world to the other, and
  -- each of them accepted it.
  abbrev pub Passed :
      ℕ
      → Change S E
      → Phase
      → C
      → T
      → List (Check S E C T (World S E V))
      → World S E V
      → World S E V
      → Type 0
  Passed id change phase c d [] w w' = w ≡ w'
  Passed id change phase c d (check ∷ checks) w w' =
      Called env id change phase (check c change d) w
      × Passed id change phase c d checks (invoke env id change phase (check c change d) w).1 w'

  run_checks-Passed :
      (id : ℕ) (base : Result S E) (change : Change S E) (phase : Phase)
      (checks : List (Check S E C T (World S E V))) (c : C) (d : T) (u : Bool) (w : World S E V)
      → (run_checks env id base change phase checks c d u w).0 ≡ none
      → Passed id change phase c d checks w (run_checks env id base change phase checks c d u w).1
  unfolding run_checks
  run_checks-Passed id base change phase [] c d u w h = refl
  run_checks-Passed id base change phase (check ∷ checks) c d u w h =
      let p = invoke env id change phase (check c change d) w in
      let rest = run_checks env id base change phase checks c d u p.1 in
      elim (Option-cases p.0.error) [
        | inr (e, failed) ↦ absurd (ground (arith, h, failed))
        | inl passed ↦
            let later =
              run_checks-Passed id base change phase checks c d u p.1 (ground (arith, h, passed)) in
            let same : rest.1 ≡ (run_checks env id base change phase (check ∷ checks) c d u w).1 =
              ground (arith, passed) in
            (
              invoke-Called env id change phase (check c change d) w passed,
              subst (λ x. Passed id change phase c d checks p.1 x) same later,
            )
      ]

  run_checks-committed :
      (id : ℕ) (base : Result S E) (change : Change S E) (phase : Phase)
      (checks : List (Check S E C T (World S E V))) (c : C) (d : T) (u : Bool) (w : World S E V)
      (r : Result S E)
      → (run_checks env id base change phase checks c d u w).0 ≡ some r
      → r.committed ≡ base.committed
  unfolding run_checks
  run_checks-committed id base change phase [] c d u w r h = absurd (ground (arith, h))
  run_checks-committed id base change phase (check ∷ checks) c d u w r h =
      let p = invoke env id change phase (check c change d) w in
      elim (Option-cases p.0.error) [
        | inr (e, failed) ↦
            let same = latching-committed env id base change phase (blamed_cause p.0 e) u p.1 in
            let stop = latching env id base change phase (blamed_cause p.0 e) u p.1 in
            let here : stop.0 ≡ r = ground (arith, h, failed) in
            subst (λ x. x.committed ≡ base.committed) here same
        | inl passed ↦
            run_checks-committed id base change phase checks c d u p.1 r (ground (arith, h, passed))
      ]

  -- Where a chain of checks leads to a commit, all of them passed, and what comes behind them ran from
  -- the world that they left.
  pub then_checks-Passed :
      (id : ℕ) (base : Result S E) (change : Change S E) (phase : Phase)
      (checks : List (Check S E C T (World S E V))) (c : C) (d : T) (u : Bool)
      (k : World S E V → Result S E × World S E V) (w : World S E V)
      → base.committed ≡ false
      → (then_checks env id base change phase checks c d u k w).0.committed ≡ true
      → (v : World S E V) × Passed id change phase c d checks w v
        × (then_checks env id base change phase checks c d u k w ≡ k v)
  then_checks-Passed id base change phase checks c d u k w b h =
      let p = run_checks env id base change phase checks c d u w in
      elim (Option-cases p.0) [
        | inl passed ↦ (
          p.1,
          run_checks-Passed id base change phase checks c d u w passed,
          ground (arith, passed),
        )
        | inr (r, stopped) ↦
            let same = run_checks-committed id base change phase checks c d u w r stopped in
            absurd (ground (arith, h, stopped, same, b))
      ]
