-- ===== src/Persist/Apply.antt =====
-- persist/persist.go: one transition inside a store's unit of work. A store is code outside this
-- repository: here it is any finite strategy that calls the step it is given, sees the answers and
-- returns or unwinds.
use statemachine.Prelude.{
  Bool, true, false, not, ◌&&◌, ◌||◌, Option, none, some, [], ◌∷◌, if◌then◌else◌,
}
use statemachine.Errors.{
  Error, leaf, tree, of_list, invalid_key, no_store, store_contract, step_repeated, step_not_called,
  step_failed, step_incomplete, state_mismatch, Unwind, Outcome, returned, unwound, join,
}
use statemachine.Keys.Defs.{Key, value}
use statemachine.Machine.Defs.{Machine, zero_machine}
use statemachine.Instance.Defs.{new_instance, fire_instance}

-- What Store.Update does: calls of the step, in its own context, with a loaded state and a unit of
-- work, and how it ends.
pub data Strategy (C S X : Type 0) : Type 0 where
  calls : C → S → X → (Outcome (S × Option Error) → Strategy C S X) → Strategy C S X
  returns : S → Option Error → Strategy C S X
  unwinds : Unwind → Strategy C S X

-- Store[K, S, X]
abbrev pub Store : Type 0 → Type 0 → Type 0 → Type 0 → Type 0
Store C K S X = C → K → Strategy C S X

pub record StepResult (S E : Type 0) : Type 0 where
  pub from : S
  pub to : S
  pub event : E
  pub attempted : Bool
  pub confirmed : Bool
  pub transition_error : Option Error

-- The variables of apply that its step captures.
pub record Attempt (S E : Type 0) : Type 0 where
  pub result : StepResult S E
  pub started : Bool
  pub repeated : Bool
  pub completed : Bool

-- The answer of the fired Instance, and what it leaves in the captured variables.
unfoldable pub settle_step : {S E : Type 0} → Attempt S E → Outcome (S × Option Error) → Attempt S E
settle_step a (returned (to, e)) = record a {
  result = record (a.result) { to = to; transition_error = e };
  completed = true;
}
settle_step a (unwound u) = a

-- data of a unit of work is a callback, too: it may change the world, and unwind.
module _ {C S E T X W : Type 0} ⦃ks : Key S⦄ ⦃ke : Key E⦄ (machine : Machine S E C T W) (event : E)
    (make_data : X → W → Outcome T × W) where
  -- The step behind the call of data.
  unfoldable pub fire_step :
      Attempt S E → C → S → Outcome T × W → Attempt S E × Outcome (S × Option Error) × W
  fire_step a c from (unwound u, w) = (a, unwound u, w)
  fire_step a c from (returned value, w) =
      let (i, answer, w') = fire_instance (new_instance (some machine) from []) c event value w in
      (
        settle_step
            (record a { result = record (a.result) { from = from; to = from; attempted = true } })
            answer,
        answer,
        w',
      )

  -- The step that apply hands to the store. Of overlapping calls CompareAndSwap lets one through, and
  -- the others only note a repetition, as they do behind it; apply waits for that one. So calls stand
  -- here one behind the other, the one that is let through first.
  unfoldable pub step : Attempt S E → C → S → X → W → Attempt S E × Outcome (S × Option Error) × W
  unfolding fire_step
  step a c from unit w =
      if a.started
      then (
        record a { repeated = true },
        returned (from, some (tree (of_list (leaf store_contract ∷ leaf step_repeated ∷ [])))),
        w,
      )
      else fire_step (record a { started = true }) c from (make_data unit w)

  -- store.Update with that step.
  unfoldable pub run_update :
      Strategy C S X → Attempt S E → W → Attempt S E × Outcome (S × Option Error) × W
  run_update (returns s e) a w = (a, returned (s, e), w)
  run_update (unwinds u) a w = (a, unwound u, w)
  run_update (calls c from unit k) a w =
      let (a', answer, w') = step a c from unit w in run_update (k answer) a' w'

module _ {S E : Type 0} ⦃ks : Key S⦄ where
  -- What apply makes of the captured variables and the store's return.
  unfoldable pub judge : Attempt S E → S → Option Error → S × StepResult S E × Option Error
  judge a state e =
      let plain : StepResult S E = a.result in
      if a.started && not a.completed
      then (let failure =
            join (some (leaf store_contract) ∷ some (leaf step_incomplete) ∷ e ∷ []) in
          (
            state,
            plain,
            if a.repeated then join (failure ∷ some (leaf step_repeated) ∷ []) else failure,
          ))
      else if a.repeated
      then (
        state,
        record plain { confirmed = false },
        join (some (leaf store_contract) ∷ some (leaf step_repeated) ∷ e ∷ []),
      )
      else (elim e [
        | some x ↦ (state, plain, some x)
        | none ↦
            if not a.started
            then (
              state,
              plain,
              join (some (leaf store_contract) ∷ some (leaf step_not_called) ∷ []),
            )
            else (elim (plain.transition_error) [
              | some x ↦ (
                state,
                plain,
                join (some (leaf store_contract) ∷ some (leaf step_failed) ∷ some x ∷ []),
              )
              | none ↦
                  if not (value state) || not (ks.beq state plain.to)
                  then (
                    state,
                    plain,
                    join (some (leaf store_contract) ∷ some (leaf state_mismatch) ∷ []),
                  )
                  else (state, record plain { confirmed = true }, none)
            ])
      ])

-- The captured variables at the start.
abbrev pub fresh : {S E : Type 0} → S → E → Attempt S E
fresh zero_state event = record {
  result = record {
    from = zero_state;
    to = zero_state;
    event = event;
    attempted = false;
    confirmed = false;
    transition_error = none;
  };
  started = false;
  repeated = false;
  completed = false;
}

module _ {C K S E T X W : Type 0} ⦃kk : Key K⦄ ⦃ks : Key S⦄ ⦃ke : Key E⦄ where
  -- apply, with the zero values of Go. A nil data function supplies the zero value.
  unfoldable pub apply :
      S
      → T
      → C
      → Option (Store C K S X)
      → K
      → Option (Machine S E C T W)
      → E
      → Option (X → W → Outcome T × W)
      → W
      → Outcome (S × StepResult S E × Option Error) × W
  apply zero_state zero_data c store key machine event make w =
      let start : Attempt S E = fresh zero_state event in
      if not (value key)
      then (returned (zero_state, start.result, some (leaf invalid_key)), w)
      else elim store [
        | none ↦ (returned (zero_state, start.result, some (leaf no_store)), w)
        | some update ↦
            let definition : Machine S E C T W = elim machine [
              | none ↦ zero_machine
              | some m ↦ m
            ] in
            let make_data : X → W → Outcome T × W = elim make [
              | none ↦ (λ x w. (returned zero_data, w))
              | some f ↦ f
            ] in
            let (a, answer, w') = run_update definition event make_data (update c key) start w in
            elim answer [
              | returned r ↦ (returned (judge a r.0 r.1), w')
              | unwound u ↦ (unwound u, w')
            ]
      ]
