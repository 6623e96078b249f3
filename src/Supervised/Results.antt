-- ===== src/Supervised/Results.antt =====
-- supervised/execution.go: what sections report. `zero_event` is the zero value of events.
use statemachine.Prelude.{◌==◌, true, false, not, Option, none, some}
use statemachine.Errors.{leaf, supervision, faulted}
use statemachine.Supervised.Types.{phase_none, Change, FaultRecord, fault_error, Result, Supervisor}
use statemachine.Supervised.Sections.{no_stamp}

module _ {S E : Type 0} where
  -- currentChangeLocked
  abbrev pub current_change : E → Supervisor S E → Change S E
  current_change zero_event s = record {
    id = record { execution = s.execution; incarnation = s.incarnation; sequence = s.attempt };
    revision = s.revision;
    started_at = 0;
    from = s.state;
    event = zero_event;
    transition_id = 0;
    to = s.state;
  }

  -- baseResultLocked
  abbrev pub base_result : E → Supervisor S E → Result S E
  base_result zero_event s = record {
    operation = 0;
    attempt_key = (current_change zero_event s).id;
    from = s.state;
    event = zero_event;
    transition_id = 0;
    to = s.state;
    change = none;
    revision = s.revision;
    phase = phase_none;
    selected = false;
    issue_completed = false;
    verified = false;
    committed = false;
    faulted = false;
    uncertain = false;
    error = none;
    stamp = no_stamp;
    owner = none;
    reporting = false;
  }

  -- resultFromChange
  abbrev pub result_from_change : Change S E → Result S E
  result_from_change change = record {
    operation = 0;
    attempt_key = change.id;
    from = change.from;
    event = change.event;
    transition_id = change.transition_id;
    to = change.to;
    change = some change;
    revision = change.revision;
    phase = phase_none;
    selected = not (change.transition_id == 0);
    issue_completed = false;
    verified = false;
    committed = false;
    faulted = false;
    uncertain = false;
    error = none;
    stamp = no_stamp;
    owner = none;
    reporting = false;
  }

  -- faultResult
  abbrev pub fault_result : Result S E → Option (FaultRecord S E) → Result S E
  fault_result base none = record base { faulted = true; error = some (leaf (supervision faulted)) }
  fault_result base (some f) = record base {
    phase = f.phase;
    revision = f.revision;
    faulted = true;
    uncertain = f.uncertain;
    error = some (fault_error f);
  }
