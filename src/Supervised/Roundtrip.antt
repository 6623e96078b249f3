-- ===== src/Supervised/Roundtrip.antt =====
-- supervised/execution.go: a snapshot that a Supervisor gives is one that Restore takes.
use statemachine.Prelude.{◌-◌, ◌==◌, ◌≡◌, true, false, leb}
use statemachine.Keys.Defs.{Key, value, both_key}
use statemachine.Keys.Maps.{lookup}
use statemachine.Supervised.Types.{max_u64, record_seq_margin, Limits, Supervisor}
use statemachine.Supervised.Machine.{Machine}
use statemachine.Supervised.Snapshots.{valid_limits, is_some}
use statemachine.Supervised.Sound.{Sound}
use statemachine.Supervised.Doubts.{Doubts}

module _ {S E C T W : Type 0} ⦃ks : Key S⦄ ⦃ke : Key E⦄ (m : Machine S E C T W) where
  -- The limits are valid, the identities not empty, the state valid and declared by the Machine, and
  -- the counters have room.
  abbrev pub Restorable : Supervisor S E → Limits → Type 0
  Restorable s limits =
      (valid_limits limits ≡ true)
      × ((s.execution == 0) ≡ false)
      × ((s.incarnation == 0) ≡ false)
      × (value s.state ≡ true)
      × (is_some (lookup s.state m.states) ≡ true)
      × ((s.revision == max_u64) ≡ false)
      × ((s.restarts == max_u64) ≡ false)
      × (leb (max_u64 - record_seq_margin) s.next_record ≡ false)
