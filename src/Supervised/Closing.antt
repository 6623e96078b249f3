-- ===== src/Supervised/Closing.antt =====
-- supervised/execution.go: the sections that end a call keep a Supervisor in order.
use statemachine.Prelude.{
  ℕ, ◌+◌, ◌==◌, ◌≡◌, refl, sym, subst, Bool, true, false, ◌⊎◌, inl, inr, Option, none, some,
  Bool-cases, Option-cases, arith,
}
use statemachine.Errors.{leaf, supervision, counter_exhausted}
use statemachine.Keys.Defs.{Key}
use statemachine.Supervised.Types.{
  Phase, phase_commit, Mode, mode_stopped, mode_ready, mode_executing, mode_awaiting, mode_faulted,
  max_u64, Change, Operation, FaultRecord, Decision, retain, Supervisor, Result,
}
use statemachine.Supervised.Machine.{Machine}
use statemachine.Supervised.Sections.{stamp, owns, runs, operation_returned}
use statemachine.Supervised.Outcomes.{commit, await_verification, slipped}
use statemachine.Supervised.Decisions.{restore_fault, resolve}
use statemachine.Supervised.Runs.{
  Stage, choosing, issuing, verifying, ended, adjudicating, Call, end,
}
use statemachine.Supervised.Sound.{place, Held, Plain, Blames, AtStage, AtMode, Runs, Sound}
use statemachine.Supervised.Settling.{
  works, stamp-Sound, lost-Sound, owns-runs, runs-owns, slipped-Sound, slipped-stamp,
}
use statemachine.Supervised.Latching.{latch_result-Sound}

module _ {S E C T W : Type 0} ⦃ks : Key S⦄ ⦃ke : Key E⦄ (m : Machine S E C T W) where
  -- Neither a fault nor an Issue stands before a commit.
  abbrev pub Clear : Supervisor S E → Operation S E → Type 0
  Clear s o = (s.fault ≡ none) × (o.issued_at ≡ none)

  pub stage-Clear :
      (s : Supervisor S E) (o : Operation S E) (c : Call S E) (stage : Stage S E)
      → (stage ≡ choosing) ⊎ (stage ≡ verifying)
      → AtStage m s o c stage
      → Clear s o
  stage-Clear s o c stage (inl e) h =
      subst (λ x. AtStage m s o c x → Clear s o) (sym e) (λ k. (k.0.1, k.0.2)) h
  stage-Clear s o c stage (inr e) h =
      subst (λ x. AtStage m s o c x → Clear s o) (sym e) (λ k. (k.1, k.2)) h

  abbrev committed_to : Supervisor S E → Change S E → Supervisor S E
  committed_to s change = record s {
    state = change.to;
    revision = s.revision + 1;
    pending = none;
    mode = mode_ready;
  }

  committed :
      (s : Supervisor S E) (c : Call S E)
      → (c.stage ≡ choosing) ⊎ (c.stage ≡ verifying)
      → runs s c.id ≡ true
      → Sound m s (some c)
      → Sound m (committed_to s c.change) (some (end c))
  unfolding Sound
  committed s c e run h =
      let (o, eo, mode, same, unreturned, unrevoked, stage) =
        works m s c (runs-owns s c.id run) (λ x. ground (arith, x, e)) h in
      let (f, i) = stage-Clear s o c c.stage e stage in
      (h.0, rw eo (same, unreturned), (refl, f, rw eo i, rw eo (inr refl)))

  pub commit-Sound :
      (s : Supervisor S E) (c : Call S E) (base : Result S E) (issue verified : Bool) (now : ℕ)
      → (c.stage ≡ choosing) ⊎ (c.stage ≡ verifying)
      → Sound m s (some c)
      → Sound m (commit s c.id base c.change issue verified now).0 (some (end c))
  unfolding commit
  commit-Sound s c base issue verified now e h = elim (Bool-cases (runs s c.id)) [
    | inr away ↦ rw away (slipped-Sound m s (stamp s now).0 c now refl away h)
    | inl run ↦ elim (Bool-cases (s.revision == max_u64)) [
      | inl top ↦
          rw (run, top)
            (latch_result-Sound m s c base phase_commit (leaf (supervision counter_exhausted)) issue
              now (ground (arith, e)) h)
      | inr below ↦
          rw (run, below)
            (stamp-Sound m (committed_to s c.change) (some (end c)) now (committed s c e run h))
    ]
  ]

  abbrev awaiting_from : Supervisor S E → Call S E → ℕ → ℕ → ℕ → Supervisor S E
  awaiting_from s c transition now issued_at = record s {
    pending = some (record {
      change = c.change;
      transition = transition;
      issued_at = issued_at;
      deadline = now + s.limits.verification_timeout;
      timer_version = c.id;
    });
    mode = mode_awaiting;
    timer = true;
  }

  awaited :
      (s : Supervisor S E) (c : Call S E) (transition now issued_at : ℕ)
      → c.stage ≡ issuing
      → runs s c.id ≡ true
      → Sound m s (some c)
      → Sound m (awaiting_from s c transition now issued_at) (some (end c))
  unfolding Sound
  awaited s c transition now issued_at e run h =
      let (o, eo, mode, same, unreturned, unrevoked, stage) =
        works m s c (runs-owns s c.id run) (λ x. ground (arith, x, e)) h in
      let (p, f, d, k) = subst (λ x. AtStage m s o c x) e stage in
      (h.0, rw eo (same, unreturned), (k, f, rw eo (inr refl)))

  pub await_verification-Sound :
      (s : Supervisor S E) (c : Call S E) (transition : ℕ) (base : Result S E) (now : ℕ)
      → c.stage ≡ issuing
      → Sound m s (some c)
      → Sound m (await_verification s c.id c.change transition base now).0 (some (end c))
  unfolding await_verification
  await_verification-Sound s c transition base now e h = elim (Bool-cases (runs s c.id)) [
    | inr away ↦
        rw away (slipped-Sound m s (slipped s base now).0 c now (slipped-stamp s base now) away h)
    | inl run ↦
        let at : ℕ = elim s.operation [
          | none ↦ now
          | some op ↦ elim op.issued_at [ none ↦ 0 | some at ↦ at ]
        ] in
        rw run (
          stamp-Sound m (awaiting_from s c transition now at) (some (end c)) now
            (awaited s c transition now at e run h))
  ]

  restored :
      (s : Supervisor S E) (c : Call S E) (target : S) (original : FaultRecord S E)
      (decision : Decision S)
      → c.stage ≡ adjudicating target original decision
      → owns s c.id ≡ true
      → Sound m s (some c)
      → Sound m
          (record s {
            operation = elim s.operation [
              | none ↦ none
              | some op ↦ some (record op { revoked = true })
            ];
            fault = some original;
            mode = mode_faulted;
          })
          (some (end c))
  unfolding Sound
  restored s c target original decision e own h =
      let (o, eo, mode, same, unreturned, unrevoked, stage) =
        works m s c own (λ x. ground (arith, x, e)) h in
      let (p, f, b, i) = subst (λ x. AtStage m s o c x) e stage in
      (h.0, rw eo (same, unreturned), (p, subst (λ x. Blames m (place s) x) f b, rw eo (inl refl)))

  pub restore_fault-Sound :
      (s : Supervisor S E) (c : Call S E) (base : Result S E) (now : ℕ) (target : S)
      (original : FaultRecord S E) (decision : Decision S)
      → c.stage ≡ adjudicating target original decision
      → Sound m s (some c)
      → Sound m (restore_fault s c.id original base now).0 (some (end c))
  unfolding restore_fault
  restore_fault-Sound s c base now target original decision e h = elim (Bool-cases (owns s c.id)) [
    | inl own ↦
        rw own (stamp-Sound m _ (some (end c)) now (restored s c target original decision e own h))
    | inr away ↦
        rw away (stamp-Sound m s (some (end c)) now (lost-Sound m s c (owns-runs s c.id away) h))
  ]

  -- A resolved fault, at whichever state and revision.
  resolved :
      (s : Supervisor S E) (c : Call S E) (target to : S) (revision : ℕ)
      (original : FaultRecord S E) (decision : Decision S)
      → c.stage ≡ adjudicating target original decision
      → runs s c.id ≡ true
      → Sound m s (some c)
      → Sound m
          (record s { state = to; revision = revision; fault = none; mode = mode_ready })
          (some (end c))
  unfolding Sound
  resolved s c target to revision original decision e run h =
      let (o, eo, mode, same, unreturned, unrevoked, stage) =
        works m s c (runs-owns s c.id run) (λ x. ground (arith, x, e)) h in
      let (p, f, b, i) = subst (λ x. AtStage m s o c x) e stage in
      (h.0, rw eo (same, unreturned), (p, refl, rw eo i, rw eo (inr refl)))

  pub same_fault :
      (s : Supervisor S E) (c : Call S E) (target : S) (original : FaultRecord S E)
      (decision : Decision S)
      → c.stage ≡ adjudicating target original decision
      → runs s c.id ≡ true
      → Sound m s (some c)
      → elim s.fault [ none ↦ false | some f ↦ f.number == original.number ] ≡ true
  same_fault s c target original decision e run h =
      let (o, eo, mode, same, unreturned, unrevoked, stage) =
        works m s c (runs-owns s c.id run) (λ x. ground (arith, x, e)) h in
      let (p, f, b, i) = subst (λ x. AtStage m s o c x) e stage in rw f (ground arith)

  pub resolve-Sound :
      (s : Supervisor S E) (c : Call S E) (base : Result S E) (phase : Phase) (now : ℕ) (target : S)
      (original : FaultRecord S E) (decision : Decision S)
      → c.stage ≡ adjudicating target original decision
      → Sound m s (some c)
      → Sound m (resolve s c.id original decision target phase base now).0 (some (end c))
  unfolding resolve
  resolve-Sound s c base phase now target original decision e h = elim (Bool-cases (runs s c.id)) [
    | inr away ↦ rw away (stamp-Sound m s (some (end c)) now (lost-Sound m s c away h))
    | inl run ↦
        let same = same_fault s c target original decision e run h in
        let at = λ (to : S) (n : ℕ). resolved s c target to n original decision e run h in
        elim (Bool-cases (elim decision.outcome [ retain ↦ true | _ ↦ false ])) [
          | inl kept ↦
              rw (run, same, kept)
                (stamp-Sound m (record s { fault = none; mode = mode_ready }) (some (end c)) now
                  (at s.state s.revision))
          | inr moved ↦
              rw (run, same, moved)
                (stamp-Sound m
                  (record s {
                    state = target;
                    revision = s.revision + 1;
                    fault = none;
                    mode = mode_ready;
                  })
                  (some (end c)) now (at target (s.revision + 1)))
        ]
  ]

  -- A call that ended may return, which lets go of its operation.
  freed :
      (s : Supervisor S E) (c : Call S E) (op : Option (Operation S E)) (mode : Mode)
      → c.stage ≡ ended
      → (Plain s.operation → Plain op)
      → AtMode m s (some c) mode
      → AtMode m (record s { operation = op }) none mode
  freed s c op mode_stopped e k (p, f, i, idle) = (p, f, k i, refl)
  freed s c op mode_ready e k (p, f, i, idle) = (p, f, k i, refl)
  freed s c op mode_awaiting e k (p, f, idle) = (p, f, refl)
  freed s c op mode_faulted e k (p, b, idle) = (p, b, refl)
  freed s c op mode_executing e k h = elim (Option-cases s.operation) [
    | inl absent ↦ absurd (ground (arith, absent, h))
    | inr (o, there) ↦
        let (_, stage) = subst (λ x. Runs m s x (some c)) there h in
        absurd (ground (arith, subst (λ x. AtStage m s o c x) e stage))
  ]

  pub operation_returned-Sound :
      (s : Supervisor S E) (c : Call S E)
      → c.stage ≡ ended
      → Sound m s (some c)
      → Sound m (operation_returned s c.id) none
  unfolding operation_returned Sound
  operation_returned-Sound s c e (inc, held, at) = elim (Option-cases s.operation) [
    | inl absent ↦ absurd (ground (arith, subst (λ x. Held x (some c)) absent held))
    | inr (o, there) ↦
        let (same, unreturned) = subst (λ x. Held x (some c)) there held in
        let yes_same : (o.id == c.id) ≡ true = ground (arith, same) in
        let plain : Plain s.operation → o.issued_at ≡ none = λ k. subst (λ x. Plain x) there k in
        elim (Bool-cases (o.callbacks == 0)) [
          | inl idle ↦
              rw (there, yes_same, idle) (inc, refl, freed s c none s.mode e (λ k. refl) at)
          | inr busy ↦
              rw (there, yes_same, busy)
                (inc, refl, freed s c (some (record o { returned = true })) s.mode e plain at)
        ]
  ]
