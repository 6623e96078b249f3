-- ===== src/Supervised/Runs.antt =====
-- supervised/execution.go: the operations of a Supervisor, its timer and its callbacks, as they
-- interleave. A step is one section under the lock. The call under way is kept with its local
-- variables; other callers' sections, Trip's and the timer's come between its own at any point.
use statemachine.Prelude.{ℕ, ◌≡◌, Bool, true, false, Option, none, some}
use statemachine.Errors.{Error}
use statemachine.Keys.Defs.{Key, value, both_key}
use statemachine.Keys.Maps.{items}
use statemachine.Supervised.Types.{
  Phase, AttemptId, Change, FaultRecord, Decision, Result, RecordKind, Supervisor,
}
use statemachine.Supervised.Machine.{Machine}
use statemachine.Supervised.Sections.{
  stamp, operation_returned, callback_returned, reporting_returned,
}
use statemachine.Supervised.Admission.{
  Admission, declined, admitted, exhausts, crashed, admit_start, admit_issue, admit_verify,
}
use statemachine.Supervised.Outcomes.{
  latch_result, enter_callback, abandon, prepare, await_verification, finish_ready, commit, trip,
  verification_expired,
}
use statemachine.Supervised.Delivery.{begin_delivery, end_delivery}
use statemachine.Supervised.Decisions.{restore_fault, admit_adjudicate, resolve}
use statemachine.Supervised.Records.{record_result}
use statemachine.Supervised.Snapshots.{row_matches}

-- Which call it is, and how far; `failing` has only to latch that a counter is exhausted, with or
-- without a pending change, and `ended` has only to return.
pub data Stage (S E : Type 0) : Type 0 where
  starting choosing issuing verifying ended : Stage S E
  failing : Bool → Stage S E
  adjudicating : S → FaultRecord S E → Decision S → Stage S E

pub record Call (S E : Type 0) : Type 0 where
  pub id : ℕ
  pub change : Change S E
  pub stage : Stage S E

pub record Run (S E : Type 0) : Type 0 where
  pub supervisor : Supervisor S E
  pub call : Option (Call S E)

module _ {S E : Type 0} where
  abbrev pub exhausted : Stage S E → Stage S E
  exhausted verifying = failing true
  exhausted _ = failing false

  -- The call that its first section admits.
  abbrev pub begun : Stage S E → Option (Call S E) → Admission S E → Option (Call S E)
  begun stage old (declined r) = old
  begun stage old (admitted id change r) = some (record { id = id; change = change; stage = stage })
  begun stage old (exhausts id change r) =
      some (record { id = id; change = change; stage = exhausted stage })
  begun stage old crashed = old

  -- What an adjudication goes on with.
  abbrev pub resolving : Decision S → Option (S × FaultRecord S E) → Stage S E
  resolving decision none = ended
  resolving decision (some (target, original)) = adjudicating target original decision

  abbrev pub first_section : Stage S E → Run S E → Supervisor S E × Admission S E → Run S E
  first_section stage r (s', a) = record { supervisor = s'; call = begun stage r.call a }

  abbrev pub adjudication :
      Decision S → Run S E → Supervisor S E × Admission S E × Option (S × FaultRecord S E) → Run S E
  adjudication decision r (s', a, o) = first_section (resolving decision o) r (s', a)

  abbrev pub under_way : Supervisor S E → Call S E → Run S E
  under_way s c = record { supervisor = s; call = some c }

  abbrev pub end : Call S E → Call S E
  end c = record c { stage = ended }

  -- An adjudication restores its fault instead.
  abbrev pub may_latch : Stage S E → Bool
  may_latch ended = false
  may_latch (adjudicating target original decision) = false
  may_latch _ = true

  -- The candidate row of a choice.
  abbrev pub choose : Call S E → ℕ → S → Call S E
  choose c transition_id to = record c {
    change = record (c.change) { transition_id = transition_id; to = to };
  }

  -- The rows of the Machine have a row with an Issue for the change.
  abbrev pub External :
      {C T W : Type 0} ⦃ks : Key S⦄ ⦃ke : Key E⦄ → Machine S E C T W → Change S E → Type 0
  External m c =
      (value c.from ≡ true)
      × (value c.event ≡ true)
      × (value c.to ≡ true)
      × (row_matches c (items (c.from, c.event) m.rows) ≡ true)

module _ {S E C T W : Type 0} ⦃ks : Key S⦄ ⦃ke : Key E⦄ (m : Machine S E C T W)
    (zero_event : E) where
  pub data Step : Run S E → Run S E → Type 0 where
    -- The first sections.
    starts :
        (r : Run S E) (now : ℕ)
        → Step r (first_section starting r (admit_start zero_event r.supervisor now))
    issues :
        (r : Run S E) (event : E) (now : ℕ)
        → Step r (first_section choosing r (admit_issue m.events zero_event r.supervisor event now))
    verifies :
        (r : Run S E) (attempt : AttemptId) (now : ℕ)
        → Step r (first_section verifying r (admit_verify zero_event r.supervisor attempt now))
    adjudicates :
        (r : Run S E) (decision : Decision S) (phase : Phase) (now : ℕ)
        → Step r (
            adjudication decision r
              (admit_adjudicate zero_event m.states r.supervisor decision phase now))
    -- The sections of the call under way. It may be at another candidate row while it chooses one,
    -- and prepares a row of the Machine.
    chooses :
        (s : Supervisor S E) (c : Call S E) (transition_id : ℕ) (to : S)
        → c.stage ≡ choosing
        → Step (under_way s c) (under_way s (choose c transition_id to))
    enters :
        (s : Supervisor S E) (c : Call S E) (phase : Phase)
        → Step (under_way s c) (under_way (enter_callback s c.id c.change phase).0 c)
    abandons :
        (s : Supervisor S E) (c : Call S E) → Step (under_way s c) (under_way (abandon s c.id) c)
    prepares :
        (s : Supervisor S E) (c : Call S E) (now : ℕ)
        → c.stage ≡ choosing
        → External m c.change
        → Step
            (under_way s c)
            (under_way (prepare s c.id c.change now).0 (record c { stage = issuing }))
    awaits :
        (s : Supervisor S E) (c : Call S E) (transition : ℕ) (base : Result S E) (now : ℕ)
        → c.stage ≡ issuing
        → Step
            (under_way s c)
            (under_way (await_verification s c.id c.change transition base now).0 (end c))
    finishes_start :
        (s : Supervisor S E) (c : Call S E) (base : Result S E) (now : ℕ)
        → c.stage ≡ starting
        → Step (under_way s c) (under_way (finish_ready s c.id base now).0 (end c))
    finishes_choice :
        (s : Supervisor S E) (c : Call S E) (base : Result S E) (now : ℕ)
        → c.stage ≡ choosing
        → Step (under_way s c) (under_way (finish_ready s c.id base now).0 (end c))
    commits_choice :
        (s : Supervisor S E) (c : Call S E) (base : Result S E) (now : ℕ)
        → c.stage ≡ choosing
        → Step (under_way s c) (under_way (commit s c.id base c.change false false now).0 (end c))
    commits_verified :
        (s : Supervisor S E) (c : Call S E) (base : Result S E) (now : ℕ)
        → c.stage ≡ verifying
        → Step (under_way s c) (under_way (commit s c.id base c.change true true now).0 (end c))
    latches :
        (s : Supervisor S E) (c : Call S E) (base : Result S E) (phase : Phase) (cause : Error)
        (uncertain : Bool) (now : ℕ)
        → may_latch c.stage ≡ true
        → Step
            (under_way s c)
            (under_way (latch_result s base c.id c.change phase cause uncertain now).0 (end c))
    restores :
        (s : Supervisor S E) (c : Call S E) (base : Result S E) (now : ℕ) (target : S)
        (original : FaultRecord S E) (decision : Decision S)
        → c.stage ≡ adjudicating target original decision
        → Step (under_way s c) (under_way (restore_fault s c.id original base now).0 (end c))
    resolves :
        (s : Supervisor S E) (c : Call S E) (base : Result S E) (phase : Phase) (now : ℕ)
        (target : S) (original : FaultRecord S E) (decision : Decision S)
        → c.stage ≡ adjudicating target original decision
        → Step
            (under_way s c)
            (under_way (resolve s c.id original decision target phase base now).0 (end c))
    returns :
        (s : Supervisor S E) (c : Call S E)
        → c.stage ≡ ended
        → Step (under_way s c) (record { supervisor = operation_returned s c.id; call = none })
    -- Sections that others make at any time.
    trips :
        (r : Run S E) (reason : Option Error) (now : ℕ)
        → Step r (record r { supervisor = (trip zero_event r.supervisor reason now).0 })
    rings :
        (r : Run S E) (attempt version now : ℕ)
        → Step r
            (record r { supervisor = (verification_expired r.supervisor attempt version now).0 })
    callback_ends :
        (r : Run S E) (id : ℕ)
        → Step r (record r { supervisor = callback_returned r.supervisor id })
    reports : (r : Run S E) → Step r (record r { supervisor = reporting_returned r.supervisor })
    stamps : (r : Run S E) (now : ℕ) → Step r (record r { supervisor = (stamp r.supervisor now).0 })
    records_result :
        (r : Run S E) (kind : RecordKind) (result : Result S E) (now : ℕ)
        → Step r (record r { supervisor = record_result r.supervisor kind result now })
    deliveries :
        (r : Run S E) (op : Option ℕ) (journal : Bool)
        → Step r (record r { supervisor = (begin_delivery r.supervisor op journal).0 })
    delivered :
        (r : Run S E) (op : Option ℕ) (journal : Bool)
        → Step r (record r { supervisor = end_delivery r.supervisor op journal })

  -- From any Supervisor, through any number of steps.
  pub data Reach : Run S E → Run S E → Type 0 where
    here : (r : Run S E) → Reach r r
    after : (r q t : Run S E) → Reach r q → Step q t → Reach r t
