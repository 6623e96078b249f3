-- ===== src/Statechart/Lifecycle.antt =====
-- statechart/statechart.go and statechart/observe.go: the lifecycle actions of one transition, and
-- Fire.
use statemachine.Prelude.{
  ℕ, suc, ◌+◌, ◌%◌, ◌==◌, Bool, true, false, not, ◌&&◌, ◌||◌, Option, none, some, List, [], ◌∷◌,
  ◌++◌, if◌then◌else◌, length,
}
use statemachine.Errors.{
  Error, accepts, fails, unwinds, Outcome, returned, unwound, Result, ok, err,
}
use statemachine.Keys.Defs.{Key, value}
use statemachine.Keys.Maps.{lookup}
use statemachine.Observer.Defs.{
  Move, left, entered, Observation, Observer, deliver, delivery_error, u64,
}
use statemachine.Instance.Defs.{attached}
use statemachine.Statechart.Shape.{Shape, paths_at}
use statemachine.Statechart.Chart.{
  Kind, internal, reentry, Info, Action, Transition, Chart, chosen, declined, Phase, exiting,
  effecting, entering, ActionError, out_of_range, index_of, select_transition,
}

-- The actions of one phase come through, with how many there were, or one of them fails.
abbrev pub Progress : Type 0 → Type 0
Progress S = Outcome (Result (ActionError S) ℕ)

-- Going on behind the actions of one loop, where they came through.
abbrev pub bound : {S W : Type 0} → Progress S × W → (ℕ → W → Progress S × W) → Progress S × W
bound (p, w) next = elim p [
  | returned (ok n) ↦ next n w
  | returned (err e) ↦ (returned (err e), w)
  | unwound u ↦ (unwound u, w)
]

module _ {S E C T W : Type 0} (c : C) (info : Info S E) (d : T) where
  -- The loop over the actions of one state, from one index on.
  unfoldable pub run_actions :
      Phase → S → ℕ → List (Option (Action S E C T W)) → ℕ → W → Progress S × W
  run_actions phase state index [] completed w = (returned (ok completed), w)
  run_actions phase state index (none ∷ rest) completed w =
      run_actions phase state (suc index) rest completed w
  run_actions phase state index (some a ∷ rest) completed w =
      let (reply, w') = a c info d w in
      elim reply [
        | accepts ↦ run_actions phase state (suc index) rest (suc completed) w'
        | fails e ↦ (
          returned (
              err (record {
                phase = phase;
                state = some state;
                index = index;
                completed = completed;
                cause = e;
              })),
          w',
        )
        | unwinds u ↦ (unwound u, w')
      ]

  -- The loop over the states of one phase; `actions_of` looks up the actions of that phase.
  unfoldable pub run_states :
      (S → List (Option (Action S E C T W))) → Phase → List S → ℕ → W → Progress S × W
  run_states actions_of phase [] completed w = (returned (ok completed), w)
  run_states actions_of phase (x ∷ xs) completed w =
      let (p, w') = run_actions phase x 0 (actions_of x) completed w in
      elim p [
        | returned (ok n) ↦ run_states actions_of phase xs n w'
        | returned (err e) ↦ (returned (err e), w')
        | unwound u ↦ (unwound u, w')
      ]

  -- The transition's own effect.
  unfoldable pub run_effect : Option (Action S E C T W) → W → Progress S × W
  run_effect none w = (returned (ok 0), w)
  run_effect (some a) w =
      let (reply, w') = a c info d w in
      (
        elim reply [
          | accepts ↦ returned (ok 1)
          | fails e ↦ returned (
              err (record { phase = effecting; state = none; index = 0; completed = 0; cause = e }))
          | unwinds u ↦ unwound u
        ],
        w',
      )

module _ {S E C T W : Type 0} ⦃ks : Key S⦄ where
  abbrev pub exit_actions : Chart S E C T W → S → List (Option (Action S E C T W))
  exit_actions chart x = elim (lookup x chart.states) [ none ↦ [] | some a ↦ a.exit ]

  abbrev pub entry_actions : Chart S E C T W → S → List (Option (Action S E C T W))
  entry_actions chart x = elim (lookup x chart.states) [ none ↦ [] | some a ↦ a.entry ]

  -- Exits, effect and entries, in this order, each behind the success of the one before.
  unfoldable pub run_phases :
      Chart S E C T W
      → Transition S E C T W
      → C
      → Info S E
      → T
      → List S
      → List S
      → W
      → Progress S × W
  run_phases chart t c info d exits entries w =
      bound (run_states c info d (exit_actions chart) exiting exits 0 w) (λ _ w'.
        bound (run_effect c info d t.effect w')
          (λ _ w''. run_states c info d (entry_actions chart) entering entries 0 w''))

-- Why Fire returns an error: a refusal with its reasons, an event that is no key, an overlapping
-- call, an action, or observers behind the commit.
pub data FireError (S : Type 0) : Type 0 where
  refused : List Error → FireError S
  invalid : FireError S
  overlapping : FireError S
  action_failed : ActionError S → FireError S
  unobserved : Error → FireError S

pub record Instance (S E C T W : Type 0) : Type 0 where
  pub chart : Chart S E C T W
  pub state : S
  pub flying : Bool
  pub observers : List (Observer C (Observation S E × Info S E) T W)
  pub seq : ℕ

-- deliverTransitionObservations: the exits and then the entries, numbered from the Step on.
unfoldable pub observations :
    {S E : Type 0}
    → ℕ
    → ℕ
    → Move
    → List S
    → ℕ
    → E
    → Info S E
    → List ((Observation S E × Info S E) × ℕ)
observations step seq move [] behind event info = []
observations step seq move (x ∷ xs) behind event info =
    (
      (
        record {
          seq = seq % u64;
          step = step;
          run = step;
          remaining = length xs + behind;
          move = move;
          state = x;
          event = event;
        },
        info,
      ),
      seq % u64,
    )
    ∷ observations step (seq + 1) move xs behind event info

-- transition.Kind == Reentry
abbrev pub reenters : Kind → Bool
reenters reentry = true
reenters _ = false

module _ {S E C T W : Type 0} ⦃ks : Key S⦄ ⦃ke : Key E⦄ where
  -- The last critical section of Fire and the delivery behind it, its deferred section included.
  unfoldable pub conclude :
      Instance S E C T W
      → C
      → E
      → T
      → Info S E
      → List S
      → List S
      → W
      → Instance S E C T W × Outcome (S × Option (FireError S)) × W
  conclude i c event d info exits entries w =
      let total = length exits + length entries in
      if not (total == 0) && attached i.observers
      then (let step = (i.seq + 1) % u64 in
          let (failures, w') =
            deliver i.observers c
              (observations step step left exits (length entries) event info
                ++ observations step (step + length exits) entered entries 0 event info)
              d w in
          (
            record i { state = info.destination; flying = false; seq = (i.seq + total) % u64 },
            returned (
              info.destination,
              elim (delivery_error failures) [ none ↦ none | some e ↦ some (unobserved e) ],
            ),
            w',
          ))
      else (
        record i { state = info.destination; flying = false },
        returned (info.destination, none),
        w,
      )

  -- Fire behind a selected row.
  unfoldable pub perform :
      Instance S E C T W
      → Shape S
      → C
      → E
      → T
      → Transition S E C T W
      → Info S E
      → W
      → Instance S E C T W × Outcome (S × Option (FireError S)) × W
  perform i s c event d t info w =
      let over : Instance S E C T W = record i { flying = false } in
      elim t.kind [
        | internal ↦
            let (p, w') = run_effect c info d t.effect w in
            elim p [
              | returned (ok _) ↦ (over, returned (i.state, none), w')
              | returned (err e) ↦ (over, returned (i.state, some (action_failed e)), w')
              | unwound u ↦ (over, unwound u, w')
            ]
        | _ ↦
            elim (paths_at s.nodes (index_of s i.state) (index_of s t.to)
              (index_of s info.destination) (reenters t.kind)) [
                | none ↦ (over, unwound out_of_range, w)
                | some (exits, entries) ↦
                    let (p, w') = run_phases i.chart t c info d exits entries w in
                    elim p [
                      | returned (ok _) ↦ conclude i c event d info exits entries w'
                      | returned (err e) ↦ (over, returned (i.state, some (action_failed e)), w')
                      | unwound u ↦ (over, unwound u, w')
                    ]
              ]
      ]

  -- One whole call of Fire that nothing else overlaps.
  unfoldable pub fire_chart :
      Instance S E C T W
      → C
      → E
      → T
      → W
      → Instance S E C T W × Outcome (S × Option (FireError S)) × W
  fire_chart i c event d w =
      let over : Instance S E C T W = record i { flying = false } in
      if i.flying
      then (i, returned (i.state, some overlapping), w)
      else if not (i.chart.reflexive_event || value event)
      then (over, returned (i.state, some invalid), w)
      else elim (select_transition i.chart c i.state event d w) [
        | unwound u ↦ (over, unwound u, w)
        | returned (declined reasons) ↦ (over, returned (i.state, some (refused reasons)), w)
        | returned (chosen t info) ↦ elim i.chart.shape [
          | none ↦ (over, unwound out_of_range, w)
          | some s ↦ perform i s c event d t info w
        ]
      ]
