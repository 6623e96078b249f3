-- ===== src/Supervised/Sound.antt =====
-- supervised/execution.go: what holds of a Supervisor and the call under way between its sections.
use statemachine.Prelude.{ℕ, ◌==◌, ◌≤◌, ◌≡◌, true, false, ◌⊎◌, Option, none, some}
use statemachine.Keys.Defs.{Key}
use statemachine.Supervised.Types.{
  Mode, mode_stopped, mode_ready, mode_executing, mode_awaiting, mode_faulted, Change,
  PendingChange, Operation, FaultRecord, Supervisor,
}
use statemachine.Supervised.Machine.{Machine}
use statemachine.Supervised.Runs.{
  Stage, starting, choosing, issuing, verifying, ended, failing, adjudicating, Call, External,
}

-- What a change is held against.
pub record Place (S : Type 0) : Type 0 where
  pub execution : ℕ
  pub attempt : ℕ
  pub revision : ℕ
  pub state : S

module _ {S E : Type 0} where
  abbrev pub place : Supervisor S E → Place S
  place s = record {
    execution = s.execution;
    attempt = s.attempt;
    revision = s.revision;
    state = s.state;
  }

  -- The change starts from where the Supervisor is.
  abbrev pub Fits : Place S → Change S E → Type 0
  Fits s c =
      (c.id.execution ≡ s.execution)
      × ((c.id.incarnation == 0) ≡ false)
      × (c.id.sequence ≤ s.attempt)
      × (c.revision ≡ s.revision)
      × (c.from ≡ s.state)
      × ((c.id.sequence == 0) ≡ false)

  -- The change of a fault under the attempt that the fault names.
  abbrev pub blamed : FaultRecord S E → Change S E
  blamed f = record (f.change) { id = f.attempt; from = f.state }

  -- An operation that no Issue was prepared for.
  abbrev pub Plain : Option (Operation S E) → Type 0
  Plain none = true ≡ true
  Plain (some o) = o.issued_at ≡ none

  -- The operation has neither a fault nor an Issue before it.
  abbrev pub Begun : Supervisor S E → Operation S E → Type 0
  Begun s o = (s.pending ≡ none) × (s.fault ≡ none) × (o.issued_at ≡ none)

  -- The operation of the call under way is the current one until the call returns.
  abbrev pub Held : Option (Operation S E) → Option (Call S E) → Type 0
  Held op none = true ≡ true
  Held none (some c) = true ≡ false
  Held (some o) (some c) = (o.id ≡ c.id) × (o.returned ≡ false)

  -- The call under way lost its operation, or has only to return.
  abbrev pub Idle : Option (Operation S E) → Option (Call S E) → Type 0
  Idle op none = true ≡ true
  Idle none (some c) = true ≡ false
  Idle (some o) (some c) = (o.revoked ≡ true) ⊎ (c.stage ≡ ended)

module _ {S E C T W : Type 0} ⦃ks : Key S⦄ ⦃ke : Key E⦄ (m : Machine S E C T W) where
  -- The change of an Issue that was prepared.
  abbrev pub InDoubt : Place S → Change S E → Type 0
  InDoubt s c = Fits s c × External m c

  abbrev pub Pending : Place S → Option (PendingChange S E) → Type 0
  Pending s none = true ≡ false
  Pending s (some p) = InDoubt s p.change

  -- The fault is about the state and the revision that the Supervisor keeps.
  abbrev pub Blames : Place S → Option (FaultRecord S E) → Type 0
  Blames s none = true ≡ false
  Blames s (some f) =
      (f.revision ≡ s.revision)
      × (f.state ≡ s.state)
      × elim f.issued_at [ none ↦ true ≡ true | some _ ↦ InDoubt s (blamed f) ]

  abbrev pub Verifies : Supervisor S E → Operation S E → Call S E → Type 0
  Verifies s o c =
      Pending (place s) s.pending
      × (s.fault ≡ none)
      × (o.issued_at ≡ none)
      × InDoubt (place s) o.change
      × InDoubt (place s) c.change

  -- What holds of the call that owns its operation.
  abbrev pub AtStage : Supervisor S E → Operation S E → Call S E → Stage S E → Type 0
  AtStage s o c starting = Begun s o
  AtStage s o c choosing = Begun s o × Fits (place s) c.change
  AtStage s o c issuing =
      (s.pending ≡ none)
      × (s.fault ≡ none)
      × InDoubt (place s) o.change
      × InDoubt (place s) c.change
  AtStage s o c verifying = Verifies s o c
  AtStage s o c ended = true ≡ false
  AtStage s o c (failing true) = Verifies s o c
  AtStage s o c (failing false) = Begun s o
  AtStage s o c (adjudicating target original decision) =
      (s.pending ≡ none)
      × (s.fault ≡ some original)
      × Blames (place s) s.fault
      × (o.issued_at ≡ none)

  abbrev pub Runs : Supervisor S E → Option (Operation S E) → Option (Call S E) → Type 0
  Runs s (some o) (some c) = (o.revoked ≡ false) × AtStage s o c c.stage
  Runs s _ _ = true ≡ false

  abbrev pub AtMode : Supervisor S E → Option (Call S E) → Mode → Type 0
  AtMode s call mode_stopped =
      (s.pending ≡ none) × (s.fault ≡ none) × Plain s.operation × Idle s.operation call
  AtMode s call mode_ready =
      (s.pending ≡ none) × (s.fault ≡ none) × Plain s.operation × Idle s.operation call
  AtMode s call mode_awaiting =
      Pending (place s) s.pending × (s.fault ≡ none) × Idle s.operation call
  AtMode s call mode_faulted = (s.pending ≡ none) × Blames (place s) s.fault × Idle s.operation call
  AtMode s call mode_executing = Runs s s.operation call

  -- The Supervisor is in order: it holds a pending change only while it awaits its verification or
  -- verifies it, and that change starts from the state and the revision that it keeps; it holds a
  -- fault only while it is faulted or adjudicates that fault; and it is executing only for the call
  -- under way.
  unfoldable pub Sound : Supervisor S E → Option (Call S E) → Type 0
  Sound s call = ((s.incarnation == 0) ≡ false) × Held s.operation call × AtMode s call s.mode
