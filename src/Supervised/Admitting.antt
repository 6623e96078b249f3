-- ===== src/Supervised/Admitting.antt =====
-- supervised/execution.go: the first sections of calls keep a Supervisor in order.
use statemachine.Prelude.{
  ℕ, ◌+◌, ◌==◌, ◌≡◌, refl, sym, subst, Bool, true, false, ◌||◌, inl, inr, Option, none, some, List,
  ltb, Bool-cases, arith,
}
use statemachine.Errors.{leaf, supervision, verification_timeout}
use statemachine.Keys.Defs.{Key, value}
use statemachine.Keys.Maps.{Map, elem}
use statemachine.Supervised.Types.{
  Phase, phase_verify, Mode, mode_stopped, mode_ready, mode_executing, mode_awaiting, mode_faulted,
  max_u64, AttemptId, PendingChange, FaultRecord, Decision, Supervisor, Result,
}
use statemachine.Supervised.Machine.{Machine}
use statemachine.Supervised.Sections.{
  occupied, counters_exhausted, begin_operation, same_id, same_mode, latch_now,
}
use statemachine.Supervised.Results.{base_result}
use statemachine.Supervised.Admission.{
  Admission, decline, decline_fault, decline_faulted, start_in, admit_start, attempted,
  accept_issue, issue_in, admit_issue, expire, verify_pending, verify_in, admit_verify,
}
use statemachine.Supervised.Decisions.{
  Verdict, refused_with, targets, judge_decision, adjudicate_verdict, adjudicate_fault,
  admit_adjudicate,
}
use statemachine.Supervised.Runs.{Stage, starting, choosing, verifying, Call, begun, resolving}
use statemachine.Supervised.Sound.{place, Fits, Pending, InDoubt, Blames, AtMode, Sound}
use statemachine.Supervised.Settling.{stamp-Sound}
use statemachine.Supervised.Latching.{latch_now-Sound, InDoubt-Blamable}

module _ {S E C T W : Type 0} ⦃ks : Key S⦄ ⦃ke : Key E⦄ (m : Machine S E C T W) where
  -- What a first section leaves.
  abbrev Keeps : Stage S E → Option (Call S E) → Supervisor S E × Admission S E → Type 0
  Keeps stage call p = Sound m p.0 (begun stage call p.1)

  decline_fault-Keeps :
      (s : Supervisor S E) (call : Option (Call S E)) (stage : Stage S E) (base : Result S E)
      (now : ℕ) (fault : Option (FaultRecord S E))
      → Sound m s call
      → Keeps stage call (decline_fault s base now fault)
  unfolding decline_fault decline
  decline_fault-Keeps s call stage base now none h = h
  decline_fault-Keeps s call stage base now (some f) h = stamp-Sound m s call now h

  decline_faulted-Keeps :
      (s : Supervisor S E) (call : Option (Call S E)) (stage : Stage S E) (base : Result S E)
      (now : ℕ)
      → Sound m s call
      → Keeps stage call (decline_faulted s base now)
  unfolding decline_faulted
  decline_faulted-Keeps s call stage base now h =
      decline_fault-Keeps s call stage base now s.fault h

  start_in-Keeps :
      (s : Supervisor S E) (call : Option (Call S E)) (zero_event : E) (now : ℕ) (mode : Mode)
      → AtMode m s call mode
      → Sound m s call
      → Keeps starting call (start_in zero_event s now mode)
  unfolding start_in decline Sound begin_operation
  start_in-Keeps s call z now mode_faulted at h =
      decline_faulted-Keeps s call starting (base_result z s) now h
  start_in-Keeps s call z now mode_executing at h = stamp-Sound m s call now h
  start_in-Keeps s call z now mode_ready at h = stamp-Sound m s call now h
  start_in-Keeps s call z now mode_awaiting at h = stamp-Sound m s call now h
  start_in-Keeps s call z now mode_stopped (p, f, i, idle) h = elim (Bool-cases (occupied s)) [
    | inl full ↦ rw full (stamp-Sound m s call now h)
    | inr free ↦ elim (Bool-cases (counters_exhausted s)) [
      | inl top ↦ rw (free, top) (h.0, (refl, refl), (refl, (p, f, refl)))
      | inr below ↦ rw (free, below) (h.0, (refl, refl), (refl, (p, f, refl)))
    ]
  ]

  pub admit_start-Sound :
      (s : Supervisor S E) (call : Option (Call S E)) (zero_event : E) (now : ℕ)
      → Sound m s call
      → Keeps starting call (admit_start zero_event s now)
  unfolding admit_start Sound
  admit_start-Sound s call z now h = start_in-Keeps s call z now s.mode h.2 h

  attempted-Fits :
      (s : Supervisor S E) (event : E) (now : ℕ)
      → (s.incarnation == 0) ≡ false
      → Fits (place (record s { attempt = s.attempt + 1 })) (attempted s event now)
  attempted-Fits s event now h = (refl, h, omega arith, refl, refl, ground arith)

  issue_in-Keeps :
      (s : Supervisor S E) (call : Option (Call S E)) (events : List E) (z event : E) (now : ℕ)
      (base : Result S E) (mode : Mode)
      → AtMode m s call mode
      → Sound m s call
      → Keeps choosing call (issue_in events z s event now base mode)
  unfolding issue_in decline accept_issue Sound begin_operation
  issue_in-Keeps s call events z event now base mode_faulted at h =
      decline_faulted-Keeps s call choosing base now h
  issue_in-Keeps s call events z event now base mode_executing at h = stamp-Sound m s call now h
  issue_in-Keeps s call events z event now base mode_stopped at h = stamp-Sound m s call now h
  issue_in-Keeps s call events z event now base mode_awaiting at h = stamp-Sound m s call now h
  issue_in-Keeps s call events z event now base mode_ready (p, f, i, idle) h =
      elim (Bool-cases (occupied s)) [
        | inl full ↦ rw full (stamp-Sound m s call now h)
        | inr free ↦ elim (Bool-cases (value event)) [
          | inr bad ↦ rw (free, bad) (stamp-Sound m s call now h)
          | inl good ↦ elim (Bool-cases (elem event events)) [
            | inr unknown ↦ rw (free, good, unknown) (stamp-Sound m s call now h)
            | inl known ↦ elim (Bool-cases (s.attempt == max_u64 || counters_exhausted s)) [
              | inl top ↦ rw (free, good, known, top) (h.0, (refl, refl), (refl, (p, f, refl)))
              | inr below ↦
                  rw (free, good, known, below)
                    (h.0, (refl, refl), (refl, ((p, f, refl), attempted-Fits s event now h.0)))
            ]
          ]
        ]
      ]

  pub admit_issue-Sound :
      (s : Supervisor S E) (call : Option (Call S E)) (events : List E) (zero_event event : E)
      (now : ℕ)
      → Sound m s call
      → Keeps choosing call (admit_issue events zero_event s event now)
  unfolding admit_issue Sound
  admit_issue-Sound s call events z event now h =
      issue_in-Keeps s call events z event now _ s.mode h.2 h

  -- Expiry, of the pending change.
  pub expire-Sound :
      (s : Supervisor S E) (call : Option (Call S E)) (p : PendingChange S E) (now : ℕ)
      → s.fault ≡ none
      → InDoubt m (place s) p.change
      → Sound m s call
      → Sound m (expire s p now).0 call
  unfolding expire Sound
  expire-Sound s call p now f d h =
      stamp-Sound m
        (latch_now s p.change phase_verify (leaf (supervision verification_timeout)) true now).0
        call now
        (latch_now-Sound m s call p.change phase_verify (leaf (supervision verification_timeout))
          true now h.0 h.1 (InDoubt-Blamable m s p.change f d))

  verify_pending-Keeps :
      (s : Supervisor S E) (call : Option (Call S E)) (attempt : AttemptId) (now : ℕ)
      (base : Result S E) (pending : Option (PendingChange S E))
      → s.pending ≡ pending
      → Pending m (place s) pending
      → s.fault ≡ none
      → Sound m s call
      → Keeps verifying call (verify_pending s attempt now base pending)
  unfolding verify_pending decline begin_operation Sound
  verify_pending-Keeps s call attempt now base none e d f h = absurd (ground (arith, d))
  verify_pending-Keeps s call attempt now base (some p) e d f h =
      elim (Bool-cases (same_id p.change.id attempt)) [
        | inr other ↦ rw other (stamp-Sound m s call now h)
        | inl same ↦ elim (Bool-cases (ltb now p.deadline)) [
          | inr late ↦ rw (same, late) (expire-Sound s call p now f d h)
          | inl early ↦ elim (Bool-cases (counters_exhausted s)) [
            | inl top ↦
                rw (same, early, top)
                  (
                    h.0,
                    (refl, refl),
                    (refl, (subst (Pending m (place s)) (sym e) d, f, refl, d, d)),
                  )
            | inr below ↦
                rw (same, early, below)
                  (
                    h.0,
                    (refl, refl),
                    (refl, (subst (Pending m (place s)) (sym e) d, f, refl, d, d)),
                  )
          ]
        ]
      ]

  verify_in-Keeps :
      (s : Supervisor S E) (call : Option (Call S E)) (z : E) (attempt : AttemptId) (now : ℕ)
      (mode : Mode)
      → AtMode m s call mode
      → Sound m s call
      → Keeps verifying call (verify_in z s attempt now mode)
  unfolding verify_in decline Sound
  verify_in-Keeps s call z attempt now mode_faulted at h =
      decline_faulted-Keeps s call verifying (base_result z s) now h
  verify_in-Keeps s call z attempt now mode_executing at h = stamp-Sound m s call now h
  verify_in-Keeps s call z attempt now mode_stopped at h = stamp-Sound m s call now h
  verify_in-Keeps s call z attempt now mode_ready at h = stamp-Sound m s call now h
  verify_in-Keeps s call z attempt now mode_awaiting (d, f, idle) h =
      elim (Bool-cases (occupied s)) [
        | inl full ↦ rw full (stamp-Sound m s call now h)
        | inr free ↦
            rw free (verify_pending-Keeps s call attempt now (base_result z s) s.pending refl d f h)
      ]

  pub admit_verify-Sound :
      (s : Supervisor S E) (call : Option (Call S E)) (zero_event : E) (attempt : AttemptId)
      (now : ℕ)
      → Sound m s call
      → Keeps verifying call (admit_verify zero_event s attempt now)
  unfolding admit_verify Sound
  admit_verify-Sound s call z attempt now h = verify_in-Keeps s call z attempt now s.mode h.2 h

  -- What the first section of an adjudication leaves.
  abbrev Adjudicates :
      Decision S
      → Option (Call S E)
      → Supervisor S E × Admission S E × Option (S × FaultRecord S E)
      → Type 0
  Adjudicates decision call p = Sound m p.0 (begun (resolving decision p.2) call p.1)

  adjudicate_verdict-Keeps :
      (s : Supervisor S E) (call : Option (Call S E)) (decision : Decision S) (down : Result S E)
      (original : FaultRecord S E) (phase : Phase) (now : ℕ) (verdict : Verdict S E)
      → s.fault ≡ some original
      → s.pending ≡ none
      → Blames m (place s) s.fault
      → Sound m s call
      → Adjudicates decision call (adjudicate_verdict s down original phase now verdict)
  unfolding adjudicate_verdict decline begin_operation Sound
  adjudicate_verdict-Keeps s call decision down original phase now (refused_with e) f p b h =
      stamp-Sound m s call now h
  adjudicate_verdict-Keeps s call decision down original phase now (targets to change chosen) f p b
        h =
      elim (Bool-cases (counters_exhausted s)) [
        | inl top ↦ rw top (stamp-Sound m s call now h)
        | inr below ↦ rw below (h.0, (refl, refl), (refl, (p, f, b, refl)))
      ]

  adjudicate_fault-Keeps :
      (s : Supervisor S E) (call : Option (Call S E)) (z : E) (known : Map S Bool)
      (decision : Decision S) (phase : Phase) (now : ℕ) (fault : Option (FaultRecord S E))
      → s.fault ≡ fault
      → s.pending ≡ none
      → Blames m (place s) s.fault
      → Sound m s call
      → Adjudicates decision call (adjudicate_fault z known s decision phase now fault)
  unfolding adjudicate_fault decline
  adjudicate_fault-Keeps s call z known decision phase now none f p b h = h
  adjudicate_fault-Keeps s call z known decision phase now (some original) f p b h =
      elim (Bool-cases (occupied s)) [
        | inl full ↦ rw full (stamp-Sound m s call now h)
        | inr free ↦ rw free (
            adjudicate_verdict-Keeps s call decision
              (record (base_result z s) { faulted = true; uncertain = original.uncertain }) original
              phase now (judge_decision z known s original decision (base_result z s)) f p b h)
      ]

  faulted_mode : (mode : Mode) → same_mode mode mode_faulted ≡ true → mode ≡ mode_faulted
  faulted_mode mode h = ground (arith, h)

  pub admit_adjudicate-Sound :
      (s : Supervisor S E) (call : Option (Call S E)) (z : E) (decision : Decision S)
      (phase : Phase) (now : ℕ)
      → Sound m s call
      → Adjudicates decision call (admit_adjudicate z m.states s decision phase now)
  unfolding admit_adjudicate decline Sound
  admit_adjudicate-Sound s call z decision phase now h =
      elim (Bool-cases (same_mode s.mode mode_faulted)) [
        | inr up ↦ rw up (stamp-Sound m s call now h)
        | inl down ↦
            let (p, b, idle) = subst (AtMode m s call) (faulted_mode s.mode down) h.2 in
            rw down (adjudicate_fault-Keeps s call z m.states decision phase now s.fault refl p b h)
      ]
