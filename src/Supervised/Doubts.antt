-- ===== src/Supervised/Doubts.antt =====
-- supervised/execution.go: the changes that snapshotLocked reports as in doubt.
use statemachine.Prelude.{
  ℕ, ◌≡◌, ◌≢◌, refl, sym, subst, true, false, inl, inr, Option, none, some, Option-cases, arith,
}
use statemachine.Keys.Defs.{Key}
use statemachine.Supervised.Types.{
  Mode, mode_stopped, mode_ready, mode_executing, mode_awaiting, mode_faulted, PendingChange,
  FaultRecord, Operation, Supervisor,
}
use statemachine.Supervised.Machine.{Machine}
use statemachine.Supervised.Runs.{
  Stage, starting, choosing, issuing, verifying, ended, failing, adjudicating, Call,
}
use statemachine.Supervised.Sound.{
  place, blamed, Pending, Blames, InDoubt, AtStage, AtMode, Runs, Sound,
}

module _ {S E C T W : Type 0} ⦃ks : Key S⦄ ⦃ke : Key E⦄ (m : Machine S E C T W) where
  -- All that a Supervisor may report is in doubt.
  abbrev pub Doubts : Supervisor S E → Type 0
  Doubts s =
      ((p : PendingChange S E) → s.pending ≡ some p → InDoubt m (place s) p.change)
      × ((o : Operation S E) (at : ℕ)
          → s.operation ≡ some o
          → s.mode ≡ mode_executing
          → o.issued_at ≡ some at
          → InDoubt m (place s) o.change)
      × ((f : FaultRecord S E) (at : ℕ)
          → s.fault ≡ some f
          → f.issued_at ≡ some at
          → InDoubt m (place s) (blamed f))

  no_pending :
      (s : Supervisor S E)
      → s.pending ≡ none
      → (p : PendingChange S E) → s.pending ≡ some p
      → InDoubt m (place s) p.change
  no_pending s e p k = absurd (ground (arith, e, k))

  has_pending :
      (s : Supervisor S E)
      → Pending m (place s) s.pending
      → (p : PendingChange S E) → s.pending ≡ some p
      → InDoubt m (place s) p.change
  has_pending s d p e = subst (Pending m (place s)) e d

  no_issue :
      (s : Supervisor S E) (o : Operation S E)
      → s.operation ≡ some o
      → o.issued_at ≡ none
      → (q : Operation S E) (at : ℕ) → s.operation ≡ some q
      → s.mode ≡ mode_executing
      → q.issued_at ≡ some at
      → InDoubt m (place s) q.change
  no_issue s o there i q at e x k = absurd (ground (arith, i, e, k, there))

  abbrev Issued : Supervisor S E → Option (Operation S E) → Type 0
  Issued s none = true ≡ true
  Issued s (some o) = InDoubt m (place s) o.change

  has_issue :
      (s : Supervisor S E) (o : Operation S E)
      → s.operation ≡ some o
      → InDoubt m (place s) o.change
      → (q : Operation S E) (at : ℕ) → s.operation ≡ some q
      → s.mode ≡ mode_executing
      → q.issued_at ≡ some at
      → InDoubt m (place s) q.change
  has_issue s o there d q at e x k = subst (Issued s) e (subst (Issued s) (sym there) d)

  not_executing :
      (s : Supervisor S E)
      → s.mode ≢ mode_executing
      → (q : Operation S E) (at : ℕ) → s.operation ≡ some q
      → s.mode ≡ mode_executing
      → q.issued_at ≡ some at
      → InDoubt m (place s) q.change
  not_executing s k q at e x i = absurd (k x)

  no_fault :
      (s : Supervisor S E)
      → s.fault ≡ none
      → (f : FaultRecord S E) (at : ℕ) → s.fault ≡ some f
      → f.issued_at ≡ some at
      → InDoubt m (place s) (blamed f)
  no_fault s e f at k i = absurd (ground (arith, e, k))

  Blames-InDoubt :
      (s : Supervisor S E) (f : FaultRecord S E) (at : ℕ)
      → Blames m (place s) s.fault
      → s.fault ≡ some f
      → f.issued_at ≡ some at
      → InDoubt m (place s) (blamed f)
  Blames-InDoubt s f at b e i =
      let (_, _, d) = subst (Blames m (place s)) e b in
      subst (λ x. elim x [ none ↦ true ≡ true | some _ ↦ InDoubt m (place s) (blamed f) ]) i d

  stage-Doubts :
      (s : Supervisor S E) (o : Operation S E) (c : Call S E) (stage : Stage S E)
      → s.operation ≡ some o
      → AtStage m s o c stage
      → Doubts s
  stage-Doubts s o c starting there (p, f, i) = (no_pending s p, no_issue s o there i, no_fault s f)
  stage-Doubts s o c choosing there ((p, f, i), k) =
      (no_pending s p, no_issue s o there i, no_fault s f)
  stage-Doubts s o c issuing there (p, f, d, k) =
      (no_pending s p, has_issue s o there d, no_fault s f)
  stage-Doubts s o c verifying there (p, f, i, d, k) =
      (has_pending s p, no_issue s o there i, no_fault s f)
  stage-Doubts s o c ended there h = absurd (ground (arith, h))
  stage-Doubts s o c (failing true) there (p, f, i, d, k) =
      (has_pending s p, no_issue s o there i, no_fault s f)
  stage-Doubts s o c (failing false) there (p, f, i) =
      (no_pending s p, no_issue s o there i, no_fault s f)
  stage-Doubts s o c (adjudicating target original decision) there (p, f, b, i) =
      (no_pending s p, no_issue s o there i, λ g at. Blames-InDoubt s g at b)

  mode-Doubts :
      (s : Supervisor S E) (call : Option (Call S E)) (mode : Mode)
      → s.mode ≡ mode
      → AtMode m s call mode
      → Doubts s
  mode-Doubts s call mode_stopped there (p, f, i, idle) =
      (no_pending s p, not_executing s (λ x. ground (arith, there, x)), no_fault s f)
  mode-Doubts s call mode_ready there (p, f, i, idle) =
      (no_pending s p, not_executing s (λ x. ground (arith, there, x)), no_fault s f)
  mode-Doubts s call mode_awaiting there (d, f, idle) =
      (has_pending s d, not_executing s (λ x. ground (arith, there, x)), no_fault s f)
  mode-Doubts s call mode_faulted there (p, b, idle) = (
    no_pending s p,
    not_executing s (λ x. ground (arith, there, x)),
    λ g at. Blames-InDoubt s g at b,
  )
  mode-Doubts s none mode_executing there h = elim (Option-cases s.operation) [
    | inl absent ↦ absurd (ground (arith, subst (λ x. Runs m s x none) absent h))
    | inr (o, e) ↦ absurd (ground (arith, subst (λ x. Runs m s x none) e h))
  ]
  mode-Doubts s (some c) mode_executing there h = elim (Option-cases s.operation) [
    | inl absent ↦ absurd (ground (arith, subst (λ x. Runs m s x (some c)) absent h))
    | inr (o, e) ↦
        let (u, stage) = subst (λ x. Runs m s x (some c)) e h in stage-Doubts s o c c.stage e stage
  ]

  pub sound-Doubts : (s : Supervisor S E) (call : Option (Call S E)) → Sound m s call → Doubts s
  unfolding Sound
  sound-Doubts s call h = mode-Doubts s call s.mode refl h.2
