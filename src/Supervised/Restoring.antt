-- ===== src/Supervised/Restoring.antt =====
-- supervised/execution.go: what restoreSupervisor makes of a snapshot.
use statemachine.Prelude.{
  inl, inr, ℕ, ◌==◌, ◌≡◌, refl, subst, false, ◌||◌, Option, none, some, Bool-cases, Option-cases,
  arith,
}
use statemachine.Errors.{ok}
use statemachine.Keys.Defs.{Key, both_key}
use statemachine.Supervised.Types.{Limits, Change, Supervisor, PendingSnapshot, Snapshot}
use statemachine.Supervised.Machine.{Machine}
use statemachine.Supervised.Snapshots.{
  restored_fault, restored_supervisor, pending_error, snapshot_error, restore,
}
use statemachine.Supervised.Sound.{Place, InDoubt, Blames, Sound}

module _ {S E C T W : Type 0} ⦃ks : Key S⦄ ⦃ke : Key E⦄ (m : Machine S E C T W) where
  abbrev pub snapshot_place : Snapshot S E → Place S
  snapshot_place n = record {
    execution = n.execution;
    attempt = n.attempt;
    revision = n.revision;
    state = n.state;
  }

  pub pending_error-InDoubt :
      (n : Snapshot S E) (p : PendingSnapshot S E)
      → pending_error m n p ≡ none
      → InDoubt m (snapshot_place n) p.change
  unfolding pending_error
  pending_error-InDoubt n p h =
      let same : p.change.from ≡ n.state = ks.beq-eq p.change.from n.state (ground (arith, h)) in
      (
        (
          ground (arith, h),
          ground (arith, h),
          ground (arith, h),
          ground (arith, h),
          same,
          ground (arith, h),
        ),
        (ground (arith, h), ground (arith, h), ground (arith, h), ground (arith, h)),
      )

  pending_of :
      (n : Snapshot S E) (p : PendingSnapshot S E) (limits : Limits)
      → snapshot_error m limits n ≡ none
      → n.pending ≡ some p
      → InDoubt m (snapshot_place n) p.change
  unfolding snapshot_error
  pending_of n p limits h e = pending_error-InDoubt n p (ground (arith, h, e))

  restored_fault-Blames :
      (n : Snapshot S E) (zero_change : Change S E) (pending : Option (PendingSnapshot S E))
      → ((p : PendingSnapshot S E) → pending ≡ some p → InDoubt m (snapshot_place n) p.change)
      → Blames m
          (snapshot_place n)
          (some (restored_fault zero_change (record n { pending = pending })))
  restored_fault-Blames n zero_change none k = (refl, refl, refl)
  restored_fault-Blames n zero_change (some p) k =
      let d = k p refl in
      let at : InDoubt m (snapshot_place n) (record (p.change) { from = n.state }) =
        subst (λ x. InDoubt m (snapshot_place n) (record (p.change) { from = x })) d.0.4 d in
      elim (Bool-cases (p.issued_at == 0)) [
        | inl zero_time ↦ (refl, refl, rw zero_time refl)
        | inr real ↦ (refl, refl, rw real at)
      ]

  restored_supervisor-Sound :
      (n : Snapshot S E) (zero_change : Change S E) (limits : Limits) (incarnation : ℕ)
      → (incarnation == 0) ≡ false
      → snapshot_error m limits n ≡ none
      → Sound m (restored_supervisor zero_change incarnation limits n) none
  unfolding Sound restored_supervisor
  restored_supervisor-Sound n zero_change limits incarnation i h =
      elim (Bool-cases (n.in_doubt || n.faulted)) [
        | inr clean ↦ rw clean (i, refl, (refl, refl, refl, refl))
        | inl down ↦
            let b =
              restored_fault-Blames n zero_change n.pending (λ p e. pending_of n p limits h e) in
            rw down (i, refl, (refl, b, refl))
      ]

  -- A Supervisor that is restored from an accepted snapshot, under an identity that is not empty,
  -- is in order, with no call under way.
  pub restore-Sound :
      (incarnation : ℕ) (zero_change : Change S E) (limits : Limits) (n : Snapshot S E)
      (s : Supervisor S E)
      → restore (ok incarnation) zero_change m limits n ≡ ok s
      → (incarnation == 0) ≡ false
      → Sound m s none
  unfolding restore
  restore-Sound incarnation zero_change limits n s h i =
      elim (Option-cases (snapshot_error m limits n)) [
        | inl accepted ↦
            let e : restored_supervisor zero_change incarnation limits n ≡ s =
              ground (arith, h, accepted) in
            subst (λ x. Sound m x none) e
              (restored_supervisor-Sound n zero_change limits incarnation i accepted)
        | inr (e, refused) ↦ absurd (ground (arith, h, refused))
      ]
