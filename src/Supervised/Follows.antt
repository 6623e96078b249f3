-- ===== src/Supervised/Follows.antt =====
-- supervised/execution.go: when the state, the revision and the fault of a Supervisor change.
use statemachine.Prelude.{◌+◌, ◌≡◌, ◌⊎◌, none, some}
use statemachine.Supervised.Types.{FaultRecord, Decision, retain}
use statemachine.Supervised.Machine.{Machine}
use statemachine.Supervised.Runs.{choosing, verifying, adjudicating, Call, Run}
use statemachine.Supervised.Sound.{Sound}
use statemachine.Supervised.Steady

module _ {S E : Type 0} where
  -- The commit of a change, where no fault is latched.
  abbrev pub Commits : Run S E → Run S E → Type 0
  Commits r q =
      (c : Call S E) × (r.call ≡ some c)
      × ((c.stage ≡ choosing) ⊎ (c.stage ≡ verifying))
      × (r.supervisor.fault ≡ none)
      × (q.supervisor.fault ≡ none)
      × (q.supervisor.state ≡ c.change.to)
      × (q.supervisor.revision ≡ r.supervisor.revision + 1)

  -- The end of an adjudication of the fault that is latched.
  abbrev pub Resolves : Run S E → Run S E → Type 0
  Resolves r q =
      (c : Call S E) × (target : S) × (original : FaultRecord S E) × (decision : Decision S)
      × (r.call ≡ some c)
      × (c.stage ≡ adjudicating target original decision)
      × (r.supervisor.fault ≡ some original)
      × (q.supervisor.fault ≡ none)
      × (((decision.outcome ≡ retain)
            × (q.supervisor.state ≡ r.supervisor.state)
            × (q.supervisor.revision ≡ r.supervisor.revision))
          ⊎ ((q.supervisor.state ≡ target) × (q.supervisor.revision ≡ r.supervisor.revision + 1)))

  abbrev pub Follows : Run S E → Run S E → Type 0
  Follows r q = Steady.Steady r.supervisor q.supervisor ⊎ (Commits r q ⊎ Resolves r q)
