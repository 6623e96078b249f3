-- ===== src/Supervised/Calls.antt =====
-- supervised/execution.go: callbacks of an operation, and chains of checks. The world is the
-- Supervisor with all else, V, that callbacks read and change. Whatever else happens between two
-- sections of an operation is a function on the world, and so are its clock and its context.
use statemachine.Prelude.{ℕ, Bool, true, false, Option, none, some, List, [], ◌∷◌, if◌then◌else◌}
use statemachine.Errors.{
  Error, leaf, tree, of_list, join, supervision, callback_stopped, callback_panicked, violation,
  Reply, accepts, fails, unwinds, exited,
}
use statemachine.Supervised.Types.{Phase, Change, Result, Supervisor}
use statemachine.Supervised.Sections.{callback_returned}
use statemachine.Supervised.Machine.{Response, finishes, overruns, Check}
use statemachine.Supervised.Outcomes.{latch_result, enter_callback, abandon}

-- contextFailure of the operation's context where it is over, the clock, and what others do.
pub record Surroundings (S E V : Type 0) : Type 0 where
  pub over : Supervisor S E × V → Option Error
  pub clock : Supervisor S E × V → ℕ
  pub meanwhile : Supervisor S E × V → Supervisor S E × V

-- callbackOutcome
pub record CallbackOutcome : Type 0 where
  pub error : Option Error
  pub completed : Bool

-- What the goroutine of a callback publishes.
abbrev pub published : Reply → CallbackOutcome
published accepts = record { error = none; completed = true }
published (fails e) = record { error = some e; completed = true }
published (unwinds exited) = record {
  error = some (leaf (supervision callback_stopped));
  completed = false;
}
published (unwinds other) = record {
  error = some (leaf (supervision callback_panicked));
  completed = false;
}

-- The outcome that invoke returns where its context may be over by then.
abbrev pub timed : CallbackOutcome → Option Error → CallbackOutcome
timed o none = o
timed o (some timeout) = elim o.error [
  | none ↦ record o { error = some timeout }
  | some e ↦ record o { error = join (some e ∷ some timeout ∷ []) }
]

-- ViolationError where the callback came to an end.
abbrev pub blamed_cause : CallbackOutcome → Error → Error
blamed_cause o e = if o.completed then tree (of_list (leaf (supervision violation) ∷ e ∷ [])) else e

module _ {S E V : Type 0} (env : Surroundings S E V) where
  -- One section under the lock, with what happens before it.
  unfoldable pub section :
      {A : Type 0}
      → (Supervisor S E → ℕ → Supervisor S E × A)
      → Supervisor S E × V
      → A × (Supervisor S E × V)
  section f w = let w' = env.meanwhile w in let p = f w'.0 (env.clock w') in (p.1, (p.0, w'.1))

  -- The return of a callback to invoke, or the wait for it given up.
  unfoldable pub returned_to :
      ℕ → Response → Supervisor S E × V → CallbackOutcome × (Supervisor S E × V)
  unfolding section callback_returned abandon
  returned_to id (finishes reply) w =
      let (u, w') = section (λ s now. (callback_returned s id, tt)) w in
      (timed (published reply) (env.over w'), w')
  returned_to id (overruns e) w =
      let (u, w') = section (λ s now. (abandon s id, tt)) w in
      (record { error = some e; completed = false }, w')

  -- invoke
  unfoldable pub invoke :
      ℕ
      → Change S E
      → Phase
      → (Supervisor S E × V → Response × (Supervisor S E × V))
      → Supervisor S E × V
      → CallbackOutcome × (Supervisor S E × V)
  unfolding section enter_callback returned_to
  invoke id change phase callback w = elim (env.over w) [
    | some e ↦ (record { error = some e; completed = false }, w)
    | none ↦
        let (refused, w') = section (λ s now. enter_callback s id change phase) w in
        elim refused [
          | some e ↦ (record { error = some e; completed = false }, w')
          | none ↦ let (response, w'') = callback w' in returned_to id response w''
        ]
  ]

  -- latchResult as a section.
  abbrev pub latching :
      ℕ
      → Result S E
      → Change S E
      → Phase
      → Error
      → Bool
      → Supervisor S E × V
      → Result S E × (Supervisor S E × V)
  latching id base change phase cause uncertain w =
      section (λ s now. latch_result s base id change phase cause uncertain now) w

  module _ {C T : Type 0} where
    -- runChecks: the Result that stops the operation, if one does.
    unfoldable pub run_checks :
        ℕ
        → Result S E
        → Change S E
        → Phase
        → List (Check S E C T (Supervisor S E × V))
        → C
        → T
        → Bool
        → Supervisor S E × V
        → Option (Result S E) × (Supervisor S E × V)
    unfolding invoke section latch_result
    run_checks id base change phase [] c d uncertain w = (none, w)
    run_checks id base change phase (check ∷ checks) c d uncertain w =
        let (o, w') = invoke id change phase (check c change d) w in
        let rest = run_checks id base change phase checks c d uncertain w' in
        elim o.error [
          | none ↦ rest
          | some e ↦
              let stop = latching id base change phase (blamed_cause o e) uncertain w' in
              (some stop.0, stop.1)
        ]
