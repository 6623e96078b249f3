-- ===== src/Supervised/Framing.antt =====
-- supervised/execution.go, delivery.go and record.go: what sections may change at any time, without
-- a bearing on the order of a Supervisor.
use statemachine.Prelude.{ℕ, ◌-◌, ◌≡◌, Bool, true, false, Option, none, some, List, arith}
use statemachine.Keys.Defs.{Key}
use statemachine.Supervised.Types.{
  Mode, mode_stopped, mode_ready, mode_executing, mode_awaiting, mode_faulted, Operation,
  RecordKind, Record, Result, Supervisor,
}
use statemachine.Supervised.Machine.{Machine}
use statemachine.Supervised.Sections.{stamp, reporting_returned}
use statemachine.Supervised.Records.{append_record, record_result}
use statemachine.Supervised.Runs.{
  Stage, starting, choosing, issuing, verifying, ended, failing, adjudicating, Call,
}
use statemachine.Supervised.Sound.{AtStage, AtMode, Runs, Sound}

-- The history, the flags of the adapters, and the timer.
pub record Frame (S E : Type 0) : Type 0 where
  pub next_record : ℕ
  pub records : List (Record S E)
  pub dropped_records : ℕ
  pub recorder_running : Bool
  pub journal_running : Bool
  pub reporting : ℕ
  pub timer : Bool

abbrev pub framed : {S E : Type 0} → Supervisor S E → Frame S E → Supervisor S E
framed s f = record s {
  next_record = f.next_record;
  records = f.records;
  dropped_records = f.dropped_records;
  recorder_running = f.recorder_running;
  journal_running = f.journal_running;
  reporting = f.reporting;
  timer = f.timer;
}

abbrev pub frame : {S E : Type 0} → Supervisor S E → Frame S E
frame s = record {
  next_record = s.next_record;
  records = s.records;
  dropped_records = s.dropped_records;
  recorder_running = s.recorder_running;
  journal_running = s.journal_running;
  reporting = s.reporting;
  timer = s.timer;
}

module _ {S E C T W : Type 0} ⦃ks : Key S⦄ ⦃ke : Key E⦄ (m : Machine S E C T W) where
  frame-AtStage :
      (s : Supervisor S E) (f : Frame S E) (o : Operation S E) (c : Call S E) (stage : Stage S E)
      → AtStage m s o c stage
      → AtStage m (framed s f) o c stage
  frame-AtStage s f o c starting h = h
  frame-AtStage s f o c choosing h = h
  frame-AtStage s f o c issuing h = h
  frame-AtStage s f o c verifying h = h
  frame-AtStage s f o c ended h = h
  frame-AtStage s f o c (failing true) h = h
  frame-AtStage s f o c (failing false) h = h
  frame-AtStage s f o c (adjudicating target original decision) h = h

  frame-Runs :
      (s : Supervisor S E) (f : Frame S E) (op : Option (Operation S E)) (call : Option (Call S E))
      → Runs m s op call
      → Runs m (framed s f) op call
  frame-Runs s f (some o) (some c) (u, h) = (u, frame-AtStage s f o c c.stage h)
  frame-Runs s f none call h = h
  frame-Runs s f (some o) none h = h

  frame-AtMode :
      (s : Supervisor S E) (f : Frame S E) (call : Option (Call S E)) (mode : Mode)
      → AtMode m s call mode
      → AtMode m (framed s f) call mode
  frame-AtMode s f call mode_stopped h = h
  frame-AtMode s f call mode_ready h = h
  frame-AtMode s f call mode_awaiting h = h
  frame-AtMode s f call mode_faulted h = h
  frame-AtMode s f call mode_executing h = frame-Runs s f s.operation call h

  pub frame-Sound :
      (s : Supervisor S E) (f : Frame S E) (call : Option (Call S E))
      → Sound m s call
      → Sound m (framed s f) call
  unfolding Sound
  frame-Sound s f call h = (h.0, h.1, frame-AtMode s f call s.mode h.2)

  pub reporting_returned-Sound :
      (s : Supervisor S E) (call : Option (Call S E))
      → Sound m s call
      → Sound m (reporting_returned s) call
  unfolding reporting_returned
  reporting_returned-Sound s call h =
      frame-Sound s (record (frame s) { reporting = s.reporting - 1 }) call h

  -- A record changes the history only.
  append_record-framed :
      (s : Supervisor S E) (r : Record S E)
      → append_record s r ≡ framed s (frame (append_record s r))
  unfolding append_record
  append_record-framed s r = ground arith

  record_result-framed :
      (s : Supervisor S E) (kind : RecordKind) (r : Result S E) (now : ℕ)
      → record_result s kind r now ≡ framed s (frame (record_result s kind r now))
  unfolding record_result append_record stamp
  record_result-framed s kind r now = ground arith

  pub record_result-Sound :
      (s : Supervisor S E) (call : Option (Call S E)) (kind : RecordKind) (r : Result S E) (now : ℕ)
      → Sound m s call
      → Sound m (record_result s kind r now) call
  record_result-Sound s call kind r now h =
      rw (record_result-framed s kind r now)
        (frame-Sound s (frame (record_result s kind r now)) call h)
