-- ===== src/Supervised/Delivery.antt =====
-- supervised/delivery.go: the sections around the callback of an adapter, Journal or Recorder. A gate is
-- busy while its adapter runs.
use statemachine.Prelude.{ℕ, ◌+◌, ◌==◌, Bool, true, false, Option, none, some, if◌then◌else◌}
use statemachine.Errors.{Error, leaf, supervision, delivery_busy}
use statemachine.Supervised.Types.{Supervisor}
use statemachine.Supervised.Sections.{callback_returned}

module _ {S E : Type 0} where
  -- op.callbacks++ for the operation that the outcome belongs to.
  unfoldable pub lease : Supervisor S E → Option ℕ → Supervisor S E
  lease s none = s
  lease s (some id) = elim s.operation [
    | none ↦ s
    | some op ↦
        if op.id == id
        then record s { operation = some (record op { callbacks = op.callbacks + 1 }) }
        else s
  ]

  -- deliverAdapter, up to the start of the callback.
  unfoldable pub begin_delivery : Supervisor S E → Option ℕ → Bool → Supervisor S E × Option Error
  unfolding lease
  begin_delivery s op journal =
      let running : Bool = if journal then s.journal_running else s.recorder_running in
      if running then (s, some (leaf (supervision delivery_busy))) else (
        (if journal
            then record (lease s op) { journal_running = true }
            else record (lease s op) { recorder_running = true }),
        none,
      )

  -- The end of its callback.
  unfoldable pub end_delivery : Supervisor S E → Option ℕ → Bool → Supervisor S E
  unfolding callback_returned
  end_delivery s op journal =
      let s' : Supervisor S E = elim op [ none ↦ s | some id ↦ callback_returned s id ] in
      if journal
      then record s' { journal_running = false }
      else record s' { recorder_running = false }
