-- ===== src/Supervised/Tripping.antt =====
-- supervised/execution.go: Trip and the verification timer keep a Supervisor in order.
use statemachine.Prelude.{
  ℕ, ◌+◌, ◌≡◌, refl, sym, subst, true, false, inl, inr, Option, none, some, ltb, Bool-cases,
  Option-cases, arith,
}
use statemachine.Errors.{Error, leaf, supervision, tripped}
use statemachine.Keys.Defs.{Key}
use statemachine.Supervised.Types.{
  Mode, mode_stopped, mode_ready, mode_executing, mode_awaiting, mode_faulted, PendingChange,
  Operation, Supervisor,
}
use statemachine.Supervised.Machine.{Machine}
use statemachine.Supervised.Sections.{stamp, latch_now, same_mode}
use statemachine.Supervised.Results.{current_change}
use statemachine.Supervised.Outcomes.{
  blame_in, tripped_change, trip, timer_fits, ring, verification_expired,
}
use statemachine.Supervised.Admission.{expire}
use statemachine.Supervised.Runs.{
  Stage, starting, choosing, issuing, verifying, ended, failing, adjudicating, Call,
}
use statemachine.Supervised.Sound.{place, Pending, AtStage, AtMode, Runs, Sound}
use statemachine.Supervised.Settling.{stamp-Sound}
use statemachine.Supervised.Latching.{Blamable, Plain-Blamable, InDoubt-Blamable, latch_now-Sound}
use statemachine.Supervised.Admitting.{expire-Sound}
use statemachine.Supervised.Framing.{frame, frame-Sound}

module _ {S E C T W : Type 0} ⦃ks : Key S⦄ ⦃ke : Key E⦄ (m : Machine S E C T W) where
  trip-stage :
      (s : Supervisor S E) (o : Operation S E) (c : Call S E) (stage : Stage S E)
      → s.operation ≡ some o
      → AtStage m s o c stage
      → Blamable m s o.change
  trip-stage s o c starting e (p, f, i) = Plain-Blamable m s o.change p f (rw e i)
  trip-stage s o c choosing e ((p, f, i), k) = Plain-Blamable m s o.change p f (rw e i)
  trip-stage s o c issuing e (p, f, d, k) = InDoubt-Blamable m s o.change f d
  trip-stage s o c verifying e (p, f, i, d, k) = InDoubt-Blamable m s o.change f d
  trip-stage s o c ended e h = absurd (ground (arith, h))
  trip-stage s o c (failing true) e (p, f, i, d, k) = InDoubt-Blamable m s o.change f d
  trip-stage s o c (failing false) e (p, f, i) = Plain-Blamable m s o.change p f (rw e i)
  trip-stage s o c (adjudicating target original decision) e (p, f, b, i) = inl b

  trip-executing :
      (s : Supervisor S E) (call : Option (Call S E)) (z : E)
      → Runs m s s.operation call
      → Blamable m s (blame_in z s mode_executing).0
  trip-executing s none z h = elim (Option-cases s.operation) [
    | inl absent ↦ absurd (ground (arith, subst (λ x. Runs m s x none) absent h))
    | inr (o, there) ↦ absurd (ground (arith, subst (λ x. Runs m s x none) there h))
  ]
  trip-executing s (some c) z h = elim (Option-cases s.operation) [
    | inl absent ↦ absurd (ground (arith, subst (λ x. Runs m s x (some c)) absent h))
    | inr (o, there) ↦
        let (u, stage) = subst (λ x. Runs m s x (some c)) there h in
        let e : (blame_in z s mode_executing).0 ≡ o.change = rw there refl in
        subst (Blamable m s) (sym e) (trip-stage s o c c.stage there stage)
  ]

  trip-awaiting :
      (s : Supervisor S E) (z : E)
      → Pending m (place s) s.pending
      → s.fault ≡ none
      → Blamable m s (blame_in z s mode_awaiting).0
  trip-awaiting s z d f = elim (Option-cases s.pending) [
    | inl absent ↦ absurd (ground (arith, subst (λ x. Pending m (place s) x) absent d))
    | inr (p, there) ↦
        let e : (blame_in z s mode_awaiting).0 ≡ p.change = rw there refl in
        subst (Blamable m s) (sym e)
          (InDoubt-Blamable m s p.change f (subst (λ x. Pending m (place s) x) there d))
  ]

  blame-Blamable :
      (s : Supervisor S E) (call : Option (Call S E)) (z : E) (mode : Mode)
      → AtMode m s call mode
      → Blamable m s (blame_in z s mode).0
  blame-Blamable s call z mode_stopped (p, f, i, idle) =
      Plain-Blamable m s (current_change z s) p f i
  blame-Blamable s call z mode_ready (p, f, i, idle) = Plain-Blamable m s (current_change z s) p f i
  blame-Blamable s call z mode_awaiting (d, f, idle) = trip-awaiting s z d f
  blame-Blamable s call z mode_faulted (p, b, idle) = inl b
  blame-Blamable s call z mode_executing h = trip-executing s call z h

  reported :
      (s : Supervisor S E) (call : Option (Call S E))
      → Sound m s call
      → Sound m (record s { reporting = s.reporting + 1 }) call
  reported s call h = frame-Sound m s (record (frame s) { reporting = s.reporting + 1 }) call h

  pub trip-Sound :
      (s : Supervisor S E) (call : Option (Call S E)) (z : E) (reason : Option Error) (now : ℕ)
      → Sound m s call
      → Sound m (trip z s reason now).0 call
  unfolding trip Sound
  trip-Sound s call z reason now h =
      let cause : Error = elim reason [ none ↦ leaf (supervision tripped) | some e ↦ e ] in
      let down = (latch_now s (tripped_change z s).0 (tripped_change z s).1 cause true now).0 in
      reported (stamp down now).0 call (
        stamp-Sound m down call now (
          latch_now-Sound m s call (tripped_change z s).0 (tripped_change z s).1 cause true now h.0
            h.1 (blame-Blamable s call z s.mode h.2)))

  -- The timer finds the change that it was set for.
  rung :
      (s : Supervisor S E) (call : Option (Call S E)) (p : PendingChange S E) (now : ℕ)
      (mode : Mode)
      → s.pending ≡ some p
      → same_mode mode mode_awaiting ≡ true
      → AtMode m s call mode
      → Sound m s call
      → Sound m (expire s p now).0 call
  rung s call p now mode_awaiting e k (d, f, idle) h =
      expire-Sound m s call p now f (subst (λ x. Pending m (place s) x) e d) h
  rung s call p now mode_stopped e k at h = absurd (ground (arith, k))
  rung s call p now mode_ready e k at h = absurd (ground (arith, k))
  rung s call p now mode_executing e k at h = absurd (ground (arith, k))
  rung s call p now mode_faulted e k at h = absurd (ground (arith, k))

  ring-Sound :
      (s : Supervisor S E) (call : Option (Call S E)) (attempt version now : ℕ)
      (pending : Option (PendingChange S E))
      → s.pending ≡ pending
      → Sound m s call
      → Sound m (ring s attempt version now pending).0 call
  unfolding ring Sound
  ring-Sound s call attempt version now none e h = h
  ring-Sound s call attempt version now (some p) e h =
      elim (Bool-cases (timer_fits s attempt version p)) [
        | inr stale ↦ rw stale h
        | inl fits ↦ elim (Bool-cases (ltb now p.deadline)) [
          | inl early ↦
              rw (fits, early) (frame-Sound m s (record (frame s) { timer = true }) call h)
          | inr late ↦ rw (fits, late) (rung s call p now s.mode e (ground (arith, fits)) h.2 h)
        ]
      ]

  pub verification_expired-Sound :
      (s : Supervisor S E) (call : Option (Call S E)) (attempt version now : ℕ)
      → Sound m s call
      → Sound m (verification_expired s attempt version now).0 call
  unfolding verification_expired
  verification_expired-Sound s call attempt version now h =
      ring-Sound s call attempt version now s.pending refl h
