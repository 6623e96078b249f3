-- ===== src/Instance/Defs.antt =====
-- instance.go: the state of an Instance and the critical sections of Fire.
use statemachine.Prelude.{
  ℕ, ◌+◌, ◌%◌, Bool, true, false, not, ◌&&◌, Option, none, some, List, [], ◌∷◌, if◌then◌else◌,
}
use statemachine.Errors.{Error, leaf, Outcome, returned, unwound, join, in_flight}
use statemachine.Keys.Defs.{Key}
use statemachine.Machine.Defs.{Machine, zero_machine, fire, permitted}
use statemachine.Observer.Defs.{
  Observer, Observation, transition_observations, copy, deliver, delivery_error, u64,
}

pub record Instance (S E C T W : Type 0) : Type 0 where
  pub machine : Machine S E C T W
  pub state : S
  pub flying : Bool
  pub observers : List (Observer C (Observation S E) T W)
  pub seq : ℕ

module _ {S E C T W : Type 0} where
  -- newInstance: a nil Machine is the zero Machine, and nil observers are dropped.
  unfoldable pub new_instance :
      Option (Machine S E C T W)
      → S
      → List (Option (Observer C (Observation S E) T W))
      → Instance S E C T W
  unfolding copy
  new_instance machine initial observers = record {
    machine = elim machine [ none ↦ zero_machine | some m ↦ m ];
    state = initial;
    flying = false;
    observers = copy observers;
    seq = 0;
  }

  -- The first critical section of Fire: none, if another Fire is in flight.
  unfoldable pub begin : Instance S E C T W → Option (Instance S E C T W)
  begin i = if i.flying then none else some (record i { flying = true })

  -- The deferred section.
  unfoldable pub finish : Instance S E C T W → Instance S E C T W
  finish i = record i { flying = false }

-- What the second critical section leaves for delivery: the Step's number and the observers.
pub record Publication (S E C T W : Type 0) : Type 0 where
  pub step : ℕ
  pub observers : List (Observer C (Observation S E) T W)

-- len(observers) != 0
abbrev pub attached : {F : Type 0} → List F → Bool
attached [] = false
attached (f ∷ fs) = true

module _ {S E C T W : Type 0} ⦃ks : Key S⦄ ⦃ke : Key E⦄ where
  -- The second critical section, behind a machine that answered with this state and error.
  unfoldable pub commit :
      Instance S E C T W → S → S → Option Error → Instance S E C T W × Publication S E C T W
  commit i from next (some e) = (i, record { step = 0; observers = [] })
  commit i from next none =
      if not (ks.beq from next) && attached i.observers
      then (
        record i { state = next; seq = (i.seq + 2) % u64 },
        record { step = (i.seq + 1) % u64; observers = i.observers },
      )
      else (record i { state = next }, record { step = 0; observers = [] })

  -- The error that Fire returns: a delivery's failures are joined to it where one was made.
  abbrev pub publish :
      Publication S E C T W → C → S → S → E → T → Option Error → W → Option Error × W
  publish p c from next event d e w =
      if attached p.observers
      then (let (failures, w') =
            deliver p.observers c (transition_observations p.step p.step from next event) d w in
          (join (e ∷ delivery_error failures ∷ []), w'))
      else (e, w)

  -- The part of Fire behind the machine's answer, its deferred section included.
  unfoldable pub conclude :
      Instance S E C T W
      → C
      → E
      → T
      → S × Option Error
      → W
      → Instance S E C T W × Outcome (S × Option Error) × W
  unfolding transition_observations
  conclude i c event d (next, e) w =
      let (i', p) = commit i i.state next e in
      let (e', w') = publish p c i.state next event d e w in
      (finish i', returned (i'.state, e'), w')

  -- One whole call of Fire that nothing else overlaps.
  unfoldable pub fire_instance :
      Instance S E C T W → C → E → T → W → Instance S E C T W × Outcome (S × Option Error) × W
  fire_instance i c event d w = elim (begin i) [
    | none ↦ (i, returned (i.state, some (leaf in_flight)), w)
    | some i' ↦
        let (answer, w') = fire i'.machine c i'.state event d w in
        elim answer [
          | returned r ↦ conclude i' c event d r w'
          | unwound u ↦ (finish i', unwound u, w')
        ]
  ]

  -- Instance.Permitted: the pairs, or the panic of a Guard.
  unfoldable pub permitted_instance : Instance S E C T W → C → T → W → Outcome (List (E × S))
  permitted_instance i c d w =
      let (pairs, end) = permitted i.machine c i.state d w in
      elim end [ none ↦ returned pairs | some u ↦ unwound u ]
