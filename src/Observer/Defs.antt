-- ===== src/Observer/Defs.antt =====
-- internal/observer/delivery.go and observe.go: observations and their delivery. Stacks, the time
-- of an observation and the texts of failures are left out.
use statemachine.Prelude.{ℕ, suc, ◌+◌, ◌%◌, ◌^◌, Option, none, some, List, [], ◌∷◌, ◌++◌, map}
use statemachine.Errors.{Error, leaf, tree, of_list, observer_failed, Unwind, threw, wrap}

pub data Move : Type 0 where
  left entered : Move

-- Run is zero for an execution that has no cascades of its own number; Remaining counts what is
-- still to come of the Step.
pub record Observation (S E : Type 0) : Type 0 where
  pub seq : ℕ
  pub step : ℕ
  pub run : ℕ
  pub remaining : ℕ
  pub move : Move
  pub state : S
  pub event : E

-- uint64
abbrev pub u64 : ℕ
u64 = 2 ^ 64

-- A callback gets the context, the observation and the data, and returns or unwinds.
abbrev pub Observer : Type 0 → Type 0 → Type 0 → Type 0 → Type 0
Observer C O T W = C → O → T → W → Option Unwind × W

pub record Failure : Type 0 where
  pub observer : ℕ
  pub seq : ℕ
  pub cause : Unwind

-- Error.Unwrap: the classification, and the panic value where it is an error.
unfoldable pub failure_error : Failure → Error
failure_error f = elim f.cause [
  | threw e ↦ tree (of_list (leaf observer_failed ∷ e ∷ []))
  | _ ↦ tree (of_list (leaf observer_failed ∷ []))
]

-- Copy keeps the attachment order and drops nil callbacks.
unfoldable pub copy : {F : Type 0} → List (Option F) → List F
copy [] = []
copy (none ∷ fs) = copy fs
copy (some f ∷ fs) = f ∷ copy fs

-- The failure of one call, if it unwound.
abbrev pub failed : ℕ → ℕ → Option Unwind → List Failure
failed index seq none = []
failed index seq (some u) = record { observer = index; seq = seq; cause = u } ∷ []

module _ {C O T W : Type 0} where
  -- The inner loop of Deliver, from one attachment index on.
  unfoldable pub deliver_one : ℕ → List (Observer C O T W) → C → O → ℕ → T → W → List Failure × W
  deliver_one index [] c o seq d w = ([], w)
  deliver_one index (f ∷ fs) c o seq d w =
      let (result, w') = f c o d w in
      let (rest, w'') = deliver_one (suc index) fs c o seq d w' in
      (failed index seq result ++ rest, w'')

  -- The outer loop of Deliver, over observations with their sequence numbers.
  unfoldable pub deliver : List (Observer C O T W) → C → List (O × ℕ) → T → W → List Failure × W
  deliver fs c [] d w = ([], w)
  deliver fs c ((o, seq) ∷ os) d w =
      let (now, w') = deliver_one 0 fs c o seq d w in
      let (rest, w'') = deliver fs c os d w' in (now ++ rest, w'')

-- errors.Join of the failures of a delivery.
abbrev pub failure_errors : List Failure → List Error
failure_errors = map failure_error

abbrev pub delivery_error : List Failure → Option Error
delivery_error fs = wrap (failure_errors fs)

module _ {S E : Type 0} where
  -- deliverTransitionObservations: the exit and the entry of one Step, with their numbers.
  unfoldable pub transition_observations : ℕ → ℕ → S → S → E → List (Observation S E × ℕ)
  transition_observations step run from to event =
      let next = (step + 1) % u64 in
      (
        record {
          seq = step;
          step = step;
          run = run;
          remaining = 1;
          move = left;
          state = from;
          event = event;
        },
        step,
      )
      ∷ (
        record {
          seq = next;
          step = step;
          run = run;
          remaining = 0;
          move = entered;
          state = to;
          event = event;
        },
        next,
      )
      ∷ []
