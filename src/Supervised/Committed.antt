-- ===== src/Supervised/Committed.antt =====
-- supervised/execution.go: which checks stand behind a committed Result of Verify.
use mathlib.Core.Option.{some_inj}
use statemachine.Prelude.{
  sym, ◌∙◌, ℕ, ◌+◌, ◌≡◌, ◌⊎◌, inl, inr, refl, subst, true, false, Option, none, some, [], ◌∷◌,
  Option-cases, arith,
}
use statemachine.Errors.{leaf, supervision, counter_exhausted}
use statemachine.Keys.Defs.{Key}
use statemachine.Supervised.Types.{
  phase_verify, phase_invariant, phase_postcondition, AttemptId, Change, PendingChange, Mode,
  mode_stopped, mode_ready, mode_executing, mode_awaiting, mode_faulted, Result, Supervisor,
}
use statemachine.Supervised.Sections.{same_id}
use statemachine.Supervised.Results.{base_result}
use statemachine.Supervised.Machine.{Machine, Check}
use statemachine.Supervised.Admission.{
  Admission, declined, admitted, exhausts, crashed, decline, decline_fault, decline_faulted, expire,
  verify_pending, verify_in, admit_verify,
}
use statemachine.Supervised.Calls.{Surroundings, blamed_cause, section, invoke}
use statemachine.Supervised.Decide.{
  World, commit_call, exhausted_call, then_checks, verify_call, pending_verify, verify_decision,
}
use statemachine.Supervised.Passing.{
  invoke-Called, latching-committed, Commits, commit_call-Commits, Passed, then_checks-Passed,
}

module _ {S E C T V : Type 0} (env : Surroundings S E V) where
  -- Verify, the Invariants and the Postconditions passed one behind the other, from the one world to
  -- the other.
  abbrev pub Verified :
      Machine S E C T (World S E V)
      → Check S E C T (World S E V)
      → ℕ
      → Change S E
      → C
      → T
      → World S E V
      → World S E V
      → Type 0
  Verified m verify id change c d w w' =
      (u : World S E V) × (v : World S E V) × Passed env id change phase_verify c d (verify ∷ []) w
        u
      × Passed env id change phase_invariant c d m.invariants u v
      × Passed env id change phase_postcondition c d m.postconditions v w'

  verify_call-Verified :
      (m : Machine S E C T (World S E V)) (verify : Check S E C T (World S E V)) (id : ℕ)
      (base : Result S E) (change : Change S E) (c : C) (d : T) (w : World S E V)
      → base.committed ≡ false
      → (verify_call env m verify id base change c d w).0.committed ≡ true
      → (w' : World S E V) × Verified m verify id change c d w w'
        × Commits env base change w' (verify_call env m verify id base change c d w)
  unfolding verify_call
  verify_call-Verified m verify id base change c d w b h =
      let p = invoke env id change phase_verify (verify c change d) w in
      let checked : Result S E = record base { verified = true } in
      let commits = commit_call env id checked change true true in
      let posts =
        then_checks env id checked change phase_postcondition m.postconditions c d true commits in
      let all = then_checks env id checked change phase_invariant m.invariants c d true posts in
      elim (Option-cases p.0.error) [
        | inr (e, failed) ↦
            let same =
              latching-committed env id base change phase_verify (blamed_cause p.0 e) true p.1 in
            absurd (ground (arith, h, failed, same, b))
        | inl passed ↦
            let whole : verify_call env m verify id base change c d w ≡ all p.1 =
              ground (arith, passed) in
            let (v, invariants, on) =
              then_checks-Passed env id checked change phase_invariant m.invariants c d true posts
                p.1 b (subst (λ x. x.0.committed ≡ true) whole h) in
            let reached = whole ∙ on in
            let (w', postconditions, ends) =
              then_checks-Passed env id checked change phase_postcondition m.postconditions c d true
                commits v b (subst (λ x. x.0.committed ≡ true) reached h) in
            let last = reached ∙ ends in
            (
              w',
              (
                p.1,
                v,
                (invoke-Called env id change phase_verify (verify c change d) w passed, refl),
                invariants,
                postconditions,
              ),
              subst (λ x. Commits env base change w' x) (sym last)
                  (commit_call-Commits env id checked change true true w' b
                    (subst (λ x. x.0.committed ≡ true) last h)),
            )
      ]

module _ {S E : Type 0} where
  -- What Verify answers at once is not committed, and what it admits is the attempt it was given.
  verify_pending-admitted :
      (s : Supervisor S E) (attempt : AttemptId) (now id : ℕ) (start : Result S E)
      (pending : Option (PendingChange S E)) (change : Change S E) (base : Result S E)
      → (verify_pending s attempt now start pending).1 ≡ admitted id change base
      → (base.committed ≡ false)
        × (same_id change.id attempt ≡ true)
        × (base.change ≡ some change)
        × (base.to ≡ change.to)
        × ((p : PendingChange S E) × (pending ≡ some p) × (p.change ≡ change))
  unfolding verify_pending decline
  verify_pending-admitted s attempt now id start none change base h = absurd (ground (arith, h))
  verify_pending-admitted s attempt now id start (some p) change base h =
      let same : p.change ≡ change = ground (arith, h) in
      (ground (arith, h), ground (arith, h), ground (arith, h), ground (arith, h), (p, refl, same))

  verify_in-admitted :
      (z : E) (s : Supervisor S E) (attempt : AttemptId) (now id : ℕ) (mode : Mode)
      (change : Change S E) (base : Result S E)
      → (verify_in z s attempt now mode).1 ≡ admitted id change base
      → (verify_pending s attempt now (base_result z s) s.pending).1 ≡ admitted id change base
  unfolding verify_in decline decline_faulted decline_fault
  verify_in-admitted z s attempt now id mode_awaiting change base h = ground (arith, h)
  verify_in-admitted z s attempt now id mode_stopped change base h = absurd (ground (arith, h))
  verify_in-admitted z s attempt now id mode_ready change base h = absurd (ground (arith, h))
  verify_in-admitted z s attempt now id mode_executing change base h = absurd (ground (arith, h))
  verify_in-admitted z s attempt now id mode_faulted change base h = absurd (ground (arith, h))

  admit_verify-admitted :
      (z : E) (s : Supervisor S E) (attempt : AttemptId) (now id : ℕ) (change : Change S E)
      (base : Result S E)
      → (admit_verify z s attempt now).1 ≡ admitted id change base
      → (base.committed ≡ false)
        × (same_id change.id attempt ≡ true)
        × (base.change ≡ some change)
        × (base.to ≡ change.to)
        × ((p : PendingChange S E) × (s.pending ≡ some p) × (p.change ≡ change))
  unfolding admit_verify
  admit_verify-admitted z s attempt now id change base h =
      verify_pending-admitted s attempt now id (base_result z s) s.pending change base
        (verify_in-admitted z s attempt now id s.mode change base h)

  admit_verify-declined :
      (z : E) (s : Supervisor S E) (attempt : AttemptId) (now : ℕ) (r : Result S E)
      → (admit_verify z s attempt now).1 ≡ declined r
      → r.committed ≡ false
  unfolding admit_verify verify_in verify_pending expire decline decline_fault decline_faulted
  admit_verify-declined z s attempt now r h = ground (arith, h)

  admit_verify-exhausts :
      (z : E) (s : Supervisor S E) (attempt : AttemptId) (now id : ℕ) (change : Change S E)
      (base : Result S E)
      → (admit_verify z s attempt now).1 ≡ exhausts id change base
      → base.committed ≡ false
  unfolding admit_verify verify_in verify_pending decline decline_fault decline_faulted
  admit_verify-exhausts z s attempt now id change base h = ground (arith, h)

  pub Admission-cases :
      (a : Admission S E)
      → ((r : Result S E) × (a ≡ declined r))
        ⊎ (((id : ℕ) × (change : Change S E) × (base : Result S E) × (a ≡ admitted id change base))
            ⊎ (((id : ℕ) × (change : Change S E) × (base : Result S E) × (a
                    ≡ exhausts id change base))
                ⊎ (a ≡ crashed)))
  Admission-cases (declined r) = inl (r, refl)
  Admission-cases (admitted id change base) = inr (inl (id, change, base, refl))
  Admission-cases (exhausts id change base) = inr (inr (inl (id, change, base, refl)))
  Admission-cases crashed = inr (inr (inr refl))

module _ {S E C T V : Type 0} ⦃ks : Key S⦄ ⦃ke : Key E⦄ (env : Surroundings S E V) where
  -- Where Verify answers that it committed, whatever happened meanwhile, a change with the attempt it
  -- was given was pending when its first section ran. From there on, that change's own row's Verify,
  -- then every Invariant, then every Postcondition was called with the change, in order, and accepted
  -- it; and behind the last of them the change was committed: the call leaves its destination as the
  -- state, at the next revision and with nothing pending, and the Result names change, destination and
  -- revision.
  pub verify_decision-Verified :
      (m : Machine S E C T (World S E V)) (z : E) (attempt : AttemptId) (c : C) (d : T)
      (w : World S E V) (r : Result S E)
      → (verify_decision env m z attempt c d w).0 ≡ some r
      → r.committed ≡ true
      → let v = env.meanwhile w in
        let started : World S E V = ((admit_verify z v.0 attempt (env.clock v)).0, v.1) in
        let left_by = (verify_decision env m z attempt c d w).1 in
        (p : PendingChange S E) × (id : ℕ) × (w' : World S E V) × (v.0.pending ≡ some p)
        × (same_id p.change.id attempt ≡ true)
        × Verified env m (pending_verify m (some p)) id p.change c d started w'
        × (left_by.0.state ≡ p.change.to)
        × (left_by.0.revision ≡ (env.meanwhile w').0.revision + 1)
        × (left_by.0.pending ≡ none)
        × (r.change ≡ some p.change)
        × (r.to ≡ p.change.to)
        × (r.revision ≡ left_by.0.revision)
  unfolding verify_decision section
  verify_decision-Verified m z attempt c d w r h k =
      let v = env.meanwhile w in
      let a = admit_verify z v.0 attempt (env.clock v) in
      let v' : World S E V = (a.0, v.1) in
      elim (Admission-cases a.1) [
        | inl (q, e) ↦
            let uncommitted = admit_verify-declined z v.0 attempt (env.clock v) q e in
            absurd (ground (arith, h, k, e, uncommitted))
        | inr (inl (id, change, base, e)) ↦
            let (uncommitted, same, about, to, (p, held, its)) =
              admit_verify-admitted z v.0 attempt (env.clock v) id change base e in
            let call = verify_call env m (pending_verify m v.0.pending) id base change c d v' in
            let answered : some call.0 ≡ some r = ground (arith, h, e) in
            let mine : call.0 ≡ r = some_inj.0 answered in
            let left_by : (verify_decision env m z attempt c d w).1 ≡ call.1 = ground (arith, e) in
            let (w', verified, commits) =
              verify_call-Verified env m (pending_verify m v.0.pending) id base change c d v'
                uncommitted (subst (λ x. x.committed ≡ true) (sym mine) k) in
            (
              p,
              id,
              w',
              held,
              subst (λ x. same_id x.id attempt ≡ true) (sym its) same,
              subst (λ x. Verified env m (pending_verify m x) id p.change c d v' w') held
                  (subst (λ x. Verified env m (pending_verify m v.0.pending) id x c d v' w')
                    (sym its) verified),
              ground (arith, left_by, commits, its),
              ground (arith, left_by, commits),
              ground (arith, left_by, commits),
              ground (arith, mine, commits, about, its),
              ground (arith, mine, commits, to, its),
              ground (arith, mine, left_by, commits),
            )
        | inr (inr (inl (id, change, base, e))) ↦
            let uncommitted = admit_verify-exhausts z v.0 attempt (env.clock v) id change base e in
            let q = exhausted_call env id base change phase_verify true v' in
            let same : q.0.committed ≡ base.committed =
              latching-committed env id base change phase_verify
                (leaf (supervision counter_exhausted)) true v' in
            absurd (ground (arith, h, k, e, uncommitted, same))
        | inr (inr (inr e)) ↦ absurd (ground (arith, h, e))
      ]
