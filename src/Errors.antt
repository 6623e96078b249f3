-- ===== src/Errors.antt =====
-- Go's errors as trees of sentinels: errors.Is and errors.Join, the replies of callbacks, and
-- what a call leaves that may unwind its goroutine. The texts of errors are not modelled.
use native.Mathlib.Decide.{ℕ_discrete}
use mathlib.Core.Bool.{decide, decide_iff}
use statemachine.Prelude.{
  ◌≡◌, refl, ◌⊎◌, inl, inr, ℕ, Bool, true, false, ◌||◌, Option, none, some, List, [], ◌∷◌,
}

-- The sentinels of supervised/result.go.
pub data Supervision : Type 0 where
  nil_machine invalid_times not_started already_started busy awaiting : Supervision
  no_pending stale_attempt faulted not_faulted callback_running : Supervision
  operation_timeout verification_timeout callback_stopped callback_panicked : Supervision
  definition_mismatch unknown_state unknown_event counter_exhausted : Supervision
  invalid_snapshot unsupported_version invalid_decision restored_in_doubt restored_cause :
      Supervision
  journal_required journal_failed delivery_busy tripped violation : Supervision

Supervision-discrete : Discrete Supervision
Supervision-discrete = hlevel

-- The sentinels of the packages, the revisions that a ConflictError names, and the sentinels of the
-- application.
pub data Sentinel : Type 0 where
  not_permitted invalid_key in_flight observer_failed : Sentinel
  conflict not_found no_store store_contract step_repeated step_not_called : Sentinel
  step_failed step_incomplete state_mismatch : Sentinel
  reentrant execution_stopped not_running wrong_runtime root_limit : Sentinel
  run_limit invalid_limits : Sentinel
  supervision : Supervision → Sentinel
  app : ℕ → Sentinel

Sentinel-discrete : Discrete Sentinel
Sentinel-discrete = hlevel (ℕ_discrete, Supervision-discrete)

-- `tree` is an error whose Unwrap lists others: a refusal, a ConflictError, or a joined error.
mutual
  pub data Error : Type 0 where
    leaf : Sentinel → Error
    tree : Errors → Error

  pub data Errors : Type 0 where
    nil : Errors
    cons : Error → Errors → Errors

abbrev pub of_list : List Error → Errors
of_list [] = nil
of_list (e ∷ es) = cons e (of_list es)

unfoldable pub same : Sentinel → Sentinel → Bool
unfolding Sentinel-discrete Supervision-discrete ℕ_discrete decide
same a b = decide (Sentinel-discrete a b)

pub same_refl : (a : Sentinel) → same a a ≡ true
unfolding same
same_refl a = (decide_iff (Sentinel-discrete a a)).1 refl

-- errors.Is: the error itself, or one that it wraps, is the target.
unfoldable mutual
  pub is : Error → Sentinel → Bool
  is (leaf s) t = same s t
  is (tree es) t = is_any es t

  pub is_any : Errors → Sentinel → Bool
  is_any nil t = false
  is_any (cons e es) t = is e t || is_any es t

-- errors.Join drops the nils, and is nil itself where nothing is left.
abbrev pub present : List (Option Error) → List Error
present [] = []
present (none ∷ es) = present es
present (some e ∷ es) = e ∷ present es

abbrev pub wrap : List Error → Option Error
wrap [] = none
wrap (e ∷ es) = some (tree (of_list (e ∷ es)))

abbrev pub join : List (Option Error) → Option Error
join es = wrap (present es)

-- How a callback may leave its goroutine other than by returning: a panic with a plain value, a
-- panic with an error, or runtime.Goexit.
pub data Unwind : Type 0 where
  panicked : ℕ → Unwind
  threw : Error → Unwind
  exited : Unwind

-- A callback that answers with an error or nil, or unwinds.
pub data Reply : Type 0 where
  accepts : Reply
  fails : Error → Reply
  unwinds : Unwind → Reply

pub Reply-cases :
    (r : Reply) → (r ≡ accepts) ⊎ ((e : Error) × (r ≡ fails e)) ⊎ ((u : Unwind) × (r ≡ unwinds u))
Reply-cases accepts = inl refl
Reply-cases (fails e) = inr (inl (e, refl))
Reply-cases (unwinds u) = inr (inr (u, refl))

-- A call that returns a value, or lets an unwinding callback pass through.
pub data Outcome {ℓ} (A : Type ℓ) : Type ℓ where
  returned : A → Outcome A
  unwound : Unwind → Outcome A

-- Go's pair of a value and an error, of which one is set.
pub data Result {ℓ κ} (X : Type ℓ) (A : Type κ) : Type (ℓ ⊔ κ) where
  ok : A → Result X A
  err : X → Result X A
