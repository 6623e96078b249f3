-- ===== src/Tests/Calls.antt =====
-- Whole calls of a Supervisor at concrete inputs.
use statemachine.Prelude.{ℕ, ◌+◌, ◌≡◌, refl, true, false, Option, none, some, [], ◌∷◌}
use statemachine.Errors.{accepts}
use statemachine.Keys.Maps.{items, lookup, elem}
use statemachine.Supervised.Types.{
  PendingChange, phase_commit, mode_ready, mode_awaiting, Change, Result, Supervisor,
}
use statemachine.Supervised.Machine.{Machine, Row, Check, finishes}
use statemachine.Supervised.Sections.{
  same_id, stamp, counters_exhausted, begin_operation, owns, runs, callback_returned,
}
use statemachine.Supervised.Results.{result_from_change}
use statemachine.Supervised.Admission.{
  admit_verify, verify_in, verify_pending, admit_issue, issue_in, accept_issue,
}
use statemachine.Supervised.Outcomes.{enter_callback, commit}
use statemachine.Supervised.Calls.{Surroundings, section, returned_to, invoke, run_checks}
use statemachine.Supervised.Decide.{
  find_verify, pending_verify, World, commit_call, verify_call, verify_decision,
}
use statemachine.Supervised.Issuing.{
  candidate, select_candidate, logical_call, selected_call, issue_call, issue_decision,
}
use statemachine.Supervised.Committed.{Verified, verify_decision-Verified}
use statemachine.Supervised.Issued.{Behind, issue_decision-Behind}
use statemachine.Tests.Data.{nat_key}

-- Nothing happens meanwhile, and the clock stands.
abbrev calm : Surroundings ℕ ℕ ℕ
calm = record { over = λ w. none; clock = λ w. 12; meanwhile = λ w. w }

-- A check that counts in the world.
abbrev counts : Check ℕ ℕ ℕ ℕ (World ℕ ℕ ℕ)
counts c change d w = (finishes accepts, (w.0, w.1 + 1))

abbrev walk : Row ℕ ℕ ℕ ℕ (World ℕ ℕ ℕ)
walk = record {
  id = 3;
  from = 0;
  event = 0;
  to = 1;
  guard = some counts;
  preconditions = counts ∷ [];
  issue = none;
  verify = none;
}

unfoldable hall : Machine ℕ ℕ ℕ ℕ (World ℕ ℕ ℕ)
hall = record {
  id = 5;
  initial = 0;
  external = false;
  states = (0, false) ∷ (1, true) ∷ [];
  events = 0 ∷ [];
  refused = [];
  rows = ((0, 0), walk ∷ []) ∷ [];
  preconditions = counts ∷ [];
  invariants = counts ∷ [];
  postconditions = counts ∷ [];
  reconcile = [];
}

-- The same with a row that an Issue and a Verify stand behind.
abbrev crossing : Machine ℕ ℕ ℕ ℕ (World ℕ ℕ ℕ)
crossing = record hall {
  rows = ((0, 0), record walk { issue = some counts; verify = some counts } ∷ []) ∷ [];
}

abbrev at_rest : Supervisor ℕ ℕ
at_rest = record {
  mode = mode_ready;
  state = 0;
  execution = 9;
  incarnation = 9;
  restarts = 0;
  revision = 4;
  attempt = 6;
  pending = none;
  fault = none;
  fault_count = 0;
  operation = none;
  next_operation = 6;
  timer = false;
  limits = record { operation_timeout = 5; verification_timeout = 5; max_records = 2 };
  max_records = 2;
  records = [];
  next_record = 8;
  dropped_records = 0;
  recorder_running = false;
  journal_running = false;
  reporting = 0;
}

abbrev issued_change : Change ℕ ℕ
issued_change = record {
  id = record { execution = 9; incarnation = 9; sequence = 6 };
  revision = 4;
  started_at = 10;
  from = 0;
  event = 0;
  transition_id = 3;
  to = 1;
}

abbrev in_wait : Supervisor ℕ ℕ
in_wait = record at_rest {
  mode = mode_awaiting;
  pending = some (record {
    change = issued_change;
    transition = 3;
    issued_at = 11;
    deadline = 16;
    timer_version = 6;
  });
}

-- The Result of a call.
abbrev answer : Option (Result ℕ ℕ) → Result ℕ ℕ
answer none = result_from_change issued_change
answer (some r) = r

abbrev verifying : World ℕ ℕ ℕ
verifying = (in_wait, 0)

verify_decision-Verified_example :
    let started : World ℕ ℕ ℕ = ((admit_verify 0 in_wait issued_change.id 12).0, 0) in
    let left_by = (verify_decision calm crossing 0 issued_change.id 0 0 verifying).1 in
    let r = answer (verify_decision calm crossing 0 issued_change.id 0 0 verifying).0 in
    (p : PendingChange ℕ ℕ) × (id : ℕ) × (w' : World ℕ ℕ ℕ) × (in_wait.pending ≡ some p)
    × (same_id p.change.id issued_change.id ≡ true)
    × Verified calm crossing (pending_verify crossing (some p)) id p.change 0 0 started w'
    × (left_by.0.state ≡ p.change.to)
    × (left_by.0.revision ≡ w'.0.revision + 1)
    × (left_by.0.pending ≡ none)
    × (r.change ≡ some p.change)
    × (r.to ≡ p.change.to)
    × (r.revision ≡ left_by.0.revision)
unfolding verify_decision verify_call section admit_verify verify_in verify_pending
    counters_exhausted begin_operation invoke returned_to enter_callback runs owns callback_returned
    run_checks commit_call commit stamp hall pending_verify find_verify items lookup
verify_decision-Verified_example =
    verify_decision-Verified calm crossing 0 issued_change.id 0 0 verifying
      (answer (verify_decision calm crossing 0 issued_change.id 0 0 verifying).0) refl refl

abbrev walked : Change ℕ ℕ
walked = record issued_change {
  id = record { execution = 9; incarnation = 9; sequence = 7 };
  started_at = 12;
}

-- The Result of Issue.
abbrev walk_result : Result ℕ ℕ
walk_result = record (result_from_change walked) {
  operation = 7;
  revision = 5;
  phase = phase_commit;
  committed = true;
  stamp = record {
    seq = 9;
    at = 12;
    mode = mode_ready;
    durable = true;
    stamped = true;
    exhausted = false;
  };
  owner = some 7;
}

walks : (issue_decision calm hall none 0 0 0 0 (at_rest, 0)).0 ≡ some walk_result
unfolding issue_decision issue_call selected_call logical_call select_candidate section admit_issue
    issue_in accept_issue counters_exhausted begin_operation invoke returned_to enter_callback runs
    owns callback_returned run_checks commit_call commit stamp hall items lookup elem
walks = refl

issue_decision-Behind_example :
    let started : World ℕ ℕ ℕ = ((admit_issue hall.events 0 at_rest 0 12).0, 0) in
    let left_by = (issue_decision calm hall none 0 0 0 0 (at_rest, 0)).1 in
    (change : Change ℕ ℕ) × (id : ℕ) × (row : Row ℕ ℕ ℕ ℕ (World ℕ ℕ ℕ)) × (w' : World ℕ ℕ ℕ)
    × (change.event ≡ 0)
    × (change.from ≡ 0)
    × Behind calm hall id change 0 0 row started w'
    × (left_by.0.state ≡ row.to)
    × (left_by.0.revision ≡ w'.0.revision + 1)
    × (left_by.0.pending ≡ none)
    × (walk_result.change ≡ some (candidate calm change row))
    × (walk_result.to ≡ row.to)
    × (walk_result.revision ≡ left_by.0.revision)
issue_decision-Behind_example =
    issue_decision-Behind calm hall none 0 0 0 0 (at_rest, 0) walk_result walks refl

-- The guard, the row's precondition and the three groups ran.
counts_five : (issue_decision calm hall none 0 0 0 0 (at_rest, 0)).1.1 ≡ 5
unfolding issue_decision issue_call selected_call logical_call select_candidate section admit_issue
    issue_in accept_issue counters_exhausted begin_operation invoke returned_to enter_callback runs
    owns callback_returned run_checks commit_call commit stamp hall items lookup elem
counts_five = refl
