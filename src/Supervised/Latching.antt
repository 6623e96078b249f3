-- ===== src/Supervised/Latching.antt =====
-- supervised/execution.go: latching a fault keeps a Supervisor in order.
use statemachine.Prelude.{
  ℕ, ◌==◌, ◌≡◌, refl, sym, ap, subst, subst₂, Bool, true, false, ◌⊎◌, inl, inr, Option, none, some,
  Bool-cases, Option-cases, arith,
}
use statemachine.Errors.{Error}
use statemachine.Keys.Defs.{Key}
use statemachine.Supervised.Types.{Phase, Change, Operation, Supervisor, Result}
use statemachine.Supervised.Machine.{Machine}
use statemachine.Supervised.Sections.{owns, latch_now, latch, issue_times, revoke, new_fault}
use statemachine.Supervised.Outcomes.{latch_result}
use statemachine.Supervised.Runs.{
  Stage, starting, choosing, issuing, verifying, ended, failing, adjudicating, Call, end, may_latch,
}
use statemachine.Supervised.Sound.{place, Held, Idle, Plain, InDoubt, Blames, AtStage, Sound}
use statemachine.Supervised.Settling.{works, stamp-Sound, lost-Sound, owns-runs}

module _ {S E : Type 0} where
  pub revoke-Held :
      (op : Option (Operation S E)) (call : Option (Call S E))
      → Held op call
      → Held (revoke op) call
  revoke-Held op none h = refl
  revoke-Held none (some c) h = h
  revoke-Held (some o) (some c) h = h

  pub revoke-Idle :
      (op : Option (Operation S E)) (call : Option (Call S E))
      → Held op call
      → Idle (revoke op) call
  revoke-Idle op none h = refl
  revoke-Idle none (some c) h = h
  revoke-Idle (some o) (some c) h = inl refl

  issue_times-Plain :
      (s : Supervisor S E) (change : Change S E)
      → s.pending ≡ none
      → Plain s.operation
      → (issue_times s change).0 ≡ none
  issue_times-Plain s change p h = rw p (ground (arith, h))

module _ {S E C T W : Type 0} ⦃ks : Key S⦄ ⦃ke : Key E⦄ (m : Machine S E C T W) where
  -- A fault for this change says truly whether an Issue was prepared.
  abbrev pub Doubt : Supervisor S E → Change S E → Option ℕ → Type 0
  Doubt s change none = true ≡ true
  Doubt s change (some at) = InDoubt m (place s) change

  InDoubt-Doubt :
      (s : Supervisor S E) (c : Change S E) (at : Option ℕ) → InDoubt m (place s) c → Doubt s c at
  InDoubt-Doubt s c none h = refl
  InDoubt-Doubt s c (some at) h = h

  abbrev pub Blamable : Supervisor S E → Change S E → Type 0
  Blamable s change =
      Blames m (place s) s.fault ⊎ ((s.fault ≡ none) × Doubt s change (issue_times s change).0)

  pub Plain-Blamable :
      (s : Supervisor S E) (change : Change S E)
      → s.pending ≡ none
      → s.fault ≡ none
      → Plain s.operation
      → Blamable s change
  Plain-Blamable s change p f h =
      inr (f, subst (Doubt s change) (sym (issue_times-Plain s change p h)) refl)

  pub InDoubt-Blamable :
      (s : Supervisor S E) (change : Change S E)
      → s.fault ≡ none
      → InDoubt m (place s) change
      → Blamable s change
  InDoubt-Blamable s change f h = inr (f, InDoubt-Doubt s change (issue_times s change).0 h)

  -- The change under the attempt and the state of the Supervisor itself.
  InDoubt-placed :
      (s : Supervisor S E) (c : Change S E)
      → InDoubt m (place s) c
      → InDoubt m
          (place s)
          (record c { id = record (c.id) { execution = s.execution }; from = s.state })
  InDoubt-placed s c h =
      subst₂
        (λ x y. InDoubt m (place s) (record c { id = record (c.id) { execution = x }; from = y }))
        h.0.0 h.0.4 h

  new_fault-Blames :
      (s : Supervisor S E) (c : Change S E) (phase : Phase) (cause : Error) (uncertain : Bool)
      (now : ℕ) (at : Option ℕ)
      → Doubt s c at
      → Blames m
          (place s)
          (some (record (new_fault s c phase cause uncertain now) { issued_at = at }))
  new_fault-Blames s c phase cause uncertain now none h = (refl, refl, refl)
  new_fault-Blames s c phase cause uncertain now (some at) h = (refl, refl, InDoubt-placed s c h)

  pub latch_now-Sound :
      (s : Supervisor S E) (call : Option (Call S E)) (c : Change S E) (phase : Phase)
      (cause : Error) (uncertain : Bool) (now : ℕ)
      → (s.incarnation == 0) ≡ false
      → Held s.operation call
      → Blamable s c
      → Sound m (latch_now s c phase cause uncertain now).0 call
  unfolding Sound latch_now
  latch_now-Sound s call c phase cause uncertain now inc held (inr (healthy, d)) = rw healthy (
    inc,
    revoke-Held s.operation call held,
    (
      refl,
      new_fault-Blames s c phase cause uncertain now (issue_times s c).0 d,
      revoke-Idle s.operation call held,
    ),
  )
  latch_now-Sound s call c phase cause uncertain now inc held (inl b) =
      elim (Option-cases s.fault) [
        | inl healthy ↦ absurd (ground (arith, subst (λ x. Blames m (place s) x) healthy b))
        | inr (f, down) ↦ rw down (
          inc,
          revoke-Held s.operation call held,
          (refl, subst (λ x. Blames m (place s) x) down b, revoke-Idle s.operation call held),
        )
      ]

  -- What a call may latch a fault for.
  stage-Blamable :
      (s : Supervisor S E) (o : Operation S E) (c : Call S E) (stage : Stage S E)
      → s.operation ≡ some o
      → may_latch stage ≡ true
      → AtStage m s o c stage
      → Blamable s c.change
  stage-Blamable s o c starting e l (p, f, i) = Plain-Blamable s c.change p f (rw e i)
  stage-Blamable s o c choosing e l ((p, f, i), k) = Plain-Blamable s c.change p f (rw e i)
  stage-Blamable s o c issuing e l (p, f, d, k) = InDoubt-Blamable s c.change f k
  stage-Blamable s o c verifying e l (p, f, i, d, k) = InDoubt-Blamable s c.change f k
  stage-Blamable s o c ended e l h = absurd (ground (arith, h))
  stage-Blamable s o c (failing true) e l (p, f, i, d, k) = InDoubt-Blamable s c.change f k
  stage-Blamable s o c (failing false) e l (p, f, i) = Plain-Blamable s c.change p f (rw e i)
  stage-Blamable s o c (adjudicating target original decision) e l h = absurd (ground (arith, l))

  owned :
      (s : Supervisor S E) (c : Call S E) (phase : Phase) (cause : Error) (uncertain : Bool)
      (now : ℕ)
      → may_latch c.stage ≡ true
      → owns s c.id ≡ true
      → Sound m s (some c)
      → Sound m (latch_now s c.change phase cause uncertain now).0 (some (end c))
  unfolding Sound
  owned s c phase cause uncertain now l own h =
      let (o, eo, mode, same, unreturned, unrevoked, stage) =
        works m s c own (λ x. ground (arith, ap may_latch x, l)) h in
      latch_now-Sound s (some (end c)) c.change phase cause uncertain now h.0
        (rw eo (same, unreturned)) (stage-Blamable s o c c.stage eo l stage)

  pub latch_result-Sound :
      (s : Supervisor S E) (c : Call S E) (base : Result S E) (phase : Phase) (cause : Error)
      (uncertain : Bool) (now : ℕ)
      → may_latch c.stage ≡ true
      → Sound m s (some c)
      → Sound m (latch_result s base c.id c.change phase cause uncertain now).0 (some (end c))
  unfolding latch_result latch
  latch_result-Sound s c base phase cause uncertain now l h = elim (Bool-cases (owns s c.id)) [
    | inl own ↦ rw own (
        stamp-Sound m (latch_now s c.change phase cause uncertain now).0 (some (end c)) now
          (owned s c phase cause uncertain now l own h))
    | inr away ↦
        rw away (stamp-Sound m s (some (end c)) now (lost-Sound m s c (owns-runs s c.id away) h))
  ]
