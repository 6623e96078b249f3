-- ===== src/Tests/Supervision.antt =====
-- Supervisors at concrete inputs.
use statemachine.Prelude.{
  ℕ, ◌+◌, ◌≤◌, ◌<◌, ◌≡◌, refl, true, false, none, some, List, [], ◌∷◌, length, Pairs, arith,
}
use statemachine.Errors.{accepts}
use statemachine.Keys.Maps.{lookup, items}
use statemachine.Supervised.Types.{
  phase_precondition, mode_stopped, mode_ready, mode_executing, mode_awaiting, Limits, Change,
  record_issue, Record, Supervisor, max_u64,
}
use statemachine.Supervised.Machine.{Machine, Row, finishes}
use statemachine.Supervised.Sections.{no_stamp}
use statemachine.Supervised.Results.{result_from_change, current_change}
use statemachine.Supervised.Admission.{admit_start}
use statemachine.Supervised.Outcomes.{trip}
use statemachine.Supervised.Records.{append_record}
use statemachine.Supervised.History.{Older, insert_sorted, newest, append_record-newest}
use statemachine.Supervised.Snapshots.{
  snapshot, restore, restored_supervisor, snapshot_error, pending_check, pending_error, row_matches,
  valid_limits,
}
use statemachine.Supervised.Runs.{
  starting, choosing, Call, Run, begun, first_section, starts, trips, here, after,
}
use statemachine.Supervised.Sound.{Sound}
use statemachine.Supervised.Invariant.{Reach-Sound}
use statemachine.Supervised.Follows.{Follows}
use statemachine.Supervised.Restoring.{restore-Sound}
use statemachine.Tests.Data.{nat_key}

-- A ready Supervisor whose history holds two records at most.
abbrev supervisor : List (Record ℕ ℕ) → Supervisor ℕ ℕ
supervisor history = record {
  mode = mode_ready;
  state = 0;
  execution = 9;
  incarnation = 9;
  restarts = 0;
  revision = 4;
  attempt = 6;
  pending = none;
  fault = none;
  fault_count = 0;
  operation = none;
  next_operation = 6;
  timer = false;
  limits = record { operation_timeout = 5; verification_timeout = 5; max_records = 2 };
  max_records = 2;
  records = history;
  next_record = 8;
  dropped_records = 0;
  recorder_running = false;
  journal_running = false;
  reporting = 0;
}

abbrev entry : ℕ → Record ℕ ℕ
entry seq = record {
  seq = seq;
  kind = record_issue;
  stamp = no_stamp;
  outcome = result_from_change (current_change 0 (supervisor []));
}

-- A late record goes between the two that are there, and the oldest one goes.
append_record-newest_example :
    let s = supervisor (entry 3 ∷ entry 8 ∷ []) in
    let s' = append_record s (entry 7) in
    (s'.records ≡ newest 2 (insert_sorted (entry 7) s.records))
    × (length s'.records ≤ 2)
    × Pairs Older s'.records
    × (s.dropped_records < max_u64
        → s'.dropped_records + length s'.records
          ≡ s.dropped_records + length (insert_sorted (entry 7) s.records))
append_record-newest_example =
    append_record-newest (supervisor (entry 3 ∷ entry 8 ∷ [])) (entry 7) (omega arith) (omega arith)
      ((omega arith, tt), (tt, tt))

-- A Machine of two states with an external row between them.
abbrev crossing : Row ℕ ℕ ℕ ℕ ℕ
crossing = record {
  id = 3;
  from = 0;
  event = 0;
  to = 1;
  guard = none;
  preconditions = [];
  issue = some (λ c change d w. (finishes accepts, w + 1));
  verify = some (λ c change d w. (finishes accepts, w));
}

unfoldable bridge : Machine ℕ ℕ ℕ ℕ ℕ
bridge = record {
  id = 5;
  initial = 0;
  external = true;
  states = (0, false) ∷ (1, true) ∷ [];
  events = 0 ∷ [];
  refused = [];
  rows = ((0, 0), crossing ∷ []) ∷ [];
  preconditions = [];
  invariants = [];
  postconditions = [];
  reconcile = [];
}

abbrev stopped : Supervisor ℕ ℕ
stopped = record (supervisor []) { mode = mode_stopped }

-- Start begins, and Trip comes between its sections.
Reach-Sound_example :
    Sound bridge
      (trip 0 (admit_start 0 stopped 1).0 none 2).0
      (begun starting none (admit_start 0 stopped 1).1)
unfolding Sound
Reach-Sound_example =
    let r : Run ℕ ℕ = record { supervisor = stopped; call = none } in
    let q : Run ℕ ℕ = first_section starting r (admit_start 0 stopped 1) in
    Reach-Sound bridge 0 r (record q { supervisor = (trip 0 q.supervisor none 2).0 })
      (after r q (record q { supervisor = (trip 0 q.supervisor none 2).0 })
        (after r r q (here r) (starts r 1)) (trips q none 2))
      (ground arith, refl, (refl, refl, refl, refl))

abbrev crossing_change : Change ℕ ℕ
crossing_change = record {
  id = record { execution = 9; incarnation = 9; sequence = 6 };
  revision = 4;
  started_at = 10;
  from = 0;
  event = 0;
  transition_id = 3;
  to = 1;
}

abbrev executing : Supervisor ℕ ℕ
executing = record (supervisor []) {
  mode = mode_executing;
  operation = some (record {
    id = 6;
    change = crossing_change;
    phase = phase_precondition;
    started_at = 10;
    issued_at = none;
    callbacks = 0;
    returned = false;
    revoked = false;
    abandoned = false;
  });
}

abbrev chosen : Call ℕ ℕ
chosen = record { id = 6; change = crossing_change; stage = choosing }

abbrev waiting : Supervisor ℕ ℕ
waiting = record (supervisor []) {
  mode = mode_awaiting;
  pending = some (record {
    change = crossing_change;
    transition = crossing_change.transition_id;
    issued_at = 11;
    deadline = 16;
    timer_version = 6;
  });
  timer = true;
}

abbrev limits : Limits
limits = record { operation_timeout = 5; verification_timeout = 5; max_records = 0 }

restore-Sound_example :
    Sound bridge (restored_supervisor crossing_change 12 limits (snapshot 5 waiting 13)) none
unfolding restore snapshot_error pending_check pending_error row_matches valid_limits snapshot
    bridge lookup items
restore-Sound_example =
    restore-Sound bridge 12 crossing_change limits (snapshot 5 waiting 13)
      (restored_supervisor crossing_change 12 limits (snapshot 5 waiting 13)) refl (ground arith)
