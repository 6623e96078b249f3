-- ===== src/Queued/Run.antt =====
-- queued/queued.go: one root from its first event to its outcome. Callbacks run on a pair of the
-- root's cascade and the rest of the world. Contexts are code outside this repository: `context_error`
-- is what Err says of one in a world, `execution_context` and `observation_context` carry the
-- execution to callbacks and to observers.
use statemachine.Prelude.{
  ℕ, zero, suc, ◌+◌, ◌%◌, ◌==◌, not, ◌&&◌, Option, none, some, List, [], ◌∷◌, ◌++◌, if◌then◌else◌,
}
use statemachine.Errors.{
  Error, leaf, execution_stopped, Unwind, exited, Outcome, returned, unwound, join, wrap,
}
use statemachine.Keys.Defs.{Key}
use statemachine.Instance.Defs.{Instance, fire_instance, attached}
use statemachine.Observer.Defs.{
  Observer, Observation, transition_observations, deliver, delivery_error, u64,
}
use statemachine.Queued.Cascade.{Item, Cascade, next, abort, start}

-- What a root's caller gets: a state and an error, or a panic to raise again.
pub record RootOutcome (S : Type 0) : Type 0 where
  pub state : S
  pub error : Option Error
  pub panicked : Option Unwind

-- The part of a Runtime that the execution of a root reads and changes, the number of the root's
-- run, and the failures of observers so far.
pub record Progress (S E C T V : Type 0) : Type 0 where
  pub owner : Instance S E C T (Cascade C E T × V)
  pub observers : List (Observer C (Observation S E) T V)
  pub seq : ℕ
  pub last_panic : Option E
  pub run : ℕ
  pub failures : List Error
  pub cascade : Cascade C E T
  pub world : V

module _ {S E C T V : Type 0} where
  -- The loop left the root with this state and error.
  abbrev pub stop : Progress S E C T V → Option Error → Progress S E C T V × RootOutcome S
  stop p e = (
    record p { cascade = abort p.cascade },
    record { state = p.owner.state; error = e; panicked = none },
  )

  -- The deferred recovery, where a Guard or an effect unwound.
  unfoldable pub recover :
      Progress S E C T V → Item C E T → Unwind → Progress S E C T V × RootOutcome S
  recover p current exited = stop p (some (leaf execution_stopped))
  recover p current u = (
    record p { cascade = abort p.cascade; last_panic = some current.event },
    record { state = p.owner.state; error = none; panicked = some u },
  )

  -- The deferred join of the failures of observers.
  unfoldable pub join_failures :
      Progress S E C T V × RootOutcome S → Progress S E C T V × RootOutcome S
  join_failures (p, o) = elim p.failures [
    | [] ↦ (p, o)
    | _ ∷ _ ↦ (p, record o { error = join (o.error ∷ wrap p.failures ∷ []) })
  ]

-- How the loop goes on behind one event: over, or with the next one.
pub data After (S E C T V : Type 0) : Type 0 where
  over : Progress S E C T V → RootOutcome S → After S E C T V
  goes_on : Progress S E C T V → Item C E T → After S E C T V

-- The end of a round: the next follow-up, or the success of the root.
unfoldable pub advance : {S E C T V : Type 0} → Progress S E C T V → S → After S E C T V
advance p to =
    let (q, item) = next p.cascade in
    elim item [
      | none ↦
          over (record p { cascade = q }) (record { state = to; error = none; panicked = none })
      | some i ↦ goes_on (record p { cascade = q }) i
    ]

module _ {S E C T V : Type 0} ⦃ks : Key S⦄ ⦃ke : Key E⦄ (context_error : C → V → Option Error)
    (observation_context : C → C) where
  -- The publication of a Step that changed the state, where observers are attached.
  unfoldable pub publish : Progress S E C T V → Item C E T → S → S → Progress S E C T V
  publish p current from to =
      if not (ks.beq from to) && attached p.observers
      then (let step = (p.seq + 1) % u64 in
          let run = (if p.run == 0 then step else p.run) in
          let (failures, v) =
            deliver p.observers (observation_context current.context)
              (transition_observations step run from to current.event) current.payload p.world in
          record p {
            seq = (p.seq + 2) % u64;
            run = run;
            failures = elim (delivery_error failures) [
              | none ↦ p.failures
              | some e ↦ p.failures ++ e ∷ []
            ];
            world = v;
          })
      else p

  -- The loop behind the Instance's answer.
  unfoldable pub proceed :
      Progress S E C T V → Item C E T → S → Outcome (S × Option Error) → After S E C T V
  proceed p current from (unwound u) = let (p', o) = recover p current u in over p' o
  proceed p current from (returned (to, some e)) = let (p', o) = stop p (some e) in over p' o
  proceed p current from (returned (to, none)) = advance (publish p current from to) to

  -- One round of the loop of run.
  unfoldable pub round : C → Progress S E C T V → Item C E T → After S E C T V
  round root p current = elim (context_error root p.world) [
    | some e ↦ let (p', o) = stop p (some e) in over p' o
    | none ↦ elim (context_error current.context p.world) [
      | some e ↦ let (p', o) = stop p (some e) in over p' o
      | none ↦
          let (i, answer, w) =
            fire_instance p.owner current.context current.event current.payload
              (p.cascade, p.world) in
          proceed (record p { owner = i; cascade = w.0; world = w.1 }) current p.owner.state answer
    ]
  ]

  -- The loop, for at most as many rounds; none says that they did not do.
  unfoldable pub rounds :
      ℕ → C → Progress S E C T V → Item C E T → Option (Progress S E C T V × RootOutcome S)
  rounds zero root p current = none
  rounds (suc fuel) root p current = elim (round root p current) [
    | over p' o ↦ some (p', o)
    | goes_on p' item ↦ rounds fuel root p' item
  ]

  -- run, from a fresh cascade with the limit of the Runtime.
  unfoldable pub run :
      ℕ
      → (C → C)
      → ℕ
      → Progress S E C T V
      → Item C E T
      → Option (Progress S E C T V × RootOutcome S)
  run fuel execution_context limit p request =
      let fresh = record p { cascade = start limit; run = 0; failures = [] } in
      let first = record request { context = execution_context request.context } in
      elim (rounds fuel request.context fresh first) [
        | none ↦ none
        | some r ↦ some (join_failures r)
      ]
