-- ===== src/Statechart/Plan.antt =====
-- statechart/statechart.go: the lifecycle of one transition as one list of actions.
use statemachine.Prelude.{
  ℕ, suc, ◌+◌, ◌≡◌, refl, sym, ap, ◌∙◌, Option, none, some, List, [], ◌∷◌, ◌++◌, length, arith,
}
use statemachine.Errors.{Error, accepts, fails, unwinds, Outcome, returned, unwound, ok, err}
use statemachine.Keys.Defs.{Key}
use statemachine.Statechart.Chart.{
  Info, Action, Transition, Chart, Phase, exiting, effecting, entering, ActionError,
}
use statemachine.Statechart.Lifecycle.{
  bound, Progress, run_actions, run_states, run_effect, run_phases, exit_actions, entry_actions,
}

-- An action with the place it stands at, and the number of actions of its phase before it.
pub record Job (S E C T W : Type 0) : Type 0 where
  pub phase : Phase
  pub state : Option S
  pub index : ℕ
  pub before : ℕ
  pub action : Action S E C T W

abbrev pub forget : {S : Type 0} → Progress S → Outcome (Option (ActionError S))
forget (returned (ok n)) = returned none
forget (returned (err e)) = returned (some e)
forget (unwound u) = unwound u

-- Going on with more actions behind those that came through.
abbrev pub chain :
    {S W : Type 0}
    → Outcome (Option (ActionError S)) × W
    → (W → Outcome (Option (ActionError S)) × W)
    → Outcome (Option (ActionError S)) × W
chain (returned none, w) next = next w
chain (returned (some e), w) next = (returned (some e), w)
chain (unwound u, w) next = (unwound u, w)

abbrev pub forgotten : {S W : Type 0} → Progress S × W → Outcome (Option (ActionError S)) × W
forgotten (p, w) = (forget p, w)

forgotten-bound :
    {S W : Type 0} (r : Progress S × W) (k : ℕ → W → Progress S × W)
    (f : W → Outcome (Option (ActionError S)) × W)
    → ((n : ℕ) (w : W) → r.0 ≡ returned (ok n) → forgotten (k n w) ≡ f w)
    → forgotten (bound r k) ≡ chain (forgotten r) f
forgotten-bound (returned (ok n), w) k f h = h n w refl
forgotten-bound (returned (err e), w) k f h = refl
forgotten-bound (unwound u, w) k f h = refl

module _ {S E C T W : Type 0} where
  abbrev pub report : Job S E C T W → Error → ActionError S
  report j e = record {
    phase = j.phase;
    state = j.state;
    index = j.index;
    completed = j.before;
    cause = e;
  }

  -- One action after another, until one fails or unwinds.
  abbrev pub run_jobs :
      C → Info S E → T → List (Job S E C T W) → W → Outcome (Option (ActionError S)) × W
  run_jobs c info d [] w = (returned none, w)
  run_jobs c info d (j ∷ js) w =
      let (reply, w') = j.action c info d w in
      elim reply [
        | accepts ↦ run_jobs c info d js w'
        | fails e ↦ (returned (some (report j e)), w')
        | unwinds u ↦ (unwound u, w')
      ]

  -- The actions of one state that are not nil.
  abbrev pub jobs_at : Phase → S → ℕ → List (Option (Action S E C T W)) → ℕ → List (Job S E C T W)
  jobs_at phase state index [] before = []
  jobs_at phase state index (none ∷ rest) before = jobs_at phase state (suc index) rest before
  jobs_at phase state index (some a ∷ rest) before =
      record { phase = phase; state = some state; index = index; before = before; action = a }
      ∷ jobs_at phase state (suc index) rest (suc before)

  abbrev pub jobs_of :
      (S → List (Option (Action S E C T W))) → Phase → List S → ℕ → List (Job S E C T W)
  jobs_of actions_of phase [] before = []
  jobs_of actions_of phase (x ∷ xs) before =
      let now = jobs_at phase x 0 (actions_of x) before in
      now ++ jobs_of actions_of phase xs (before + length now)

  abbrev pub effect_job : Option (Action S E C T W) → List (Job S E C T W)
  effect_job none = []
  effect_job (some a) =
      record { phase = effecting; state = none; index = 0; before = 0; action = a } ∷ []

  run_jobs-append :
      (c : C) (info : Info S E) (d : T) (xs ys : List (Job S E C T W)) (w : W)
      → run_jobs c info d (xs ++ ys) w ≡ chain (run_jobs c info d xs w) (run_jobs c info d ys)
  run_jobs-append c info d [] ys w = refl
  run_jobs-append c info d (x ∷ xs) ys w =
      ground (arith, run_jobs-append c info d xs ys (x.action c info d w).1)

  run_actions-jobs :
      (c : C) (info : Info S E) (d : T) (phase : Phase) (state : S) (index : ℕ)
      (actions : List (Option (Action S E C T W))) (n : ℕ) (w : W)
      → let (p, w') = run_actions c info d phase state index actions n w in
        ((forget p, w') ≡ run_jobs c info d (jobs_at phase state index actions n) w)
        × ((m : ℕ) → p ≡ returned (ok m) → m ≡ n + length (jobs_at phase state index actions n))
  unfolding run_actions
  run_actions-jobs c info d phase state index [] n w = (refl, λ m e. ground (arith, e))
  run_actions-jobs c info d phase state index (none ∷ rest) n w =
      run_actions-jobs c info d phase state (suc index) rest n w
  run_actions-jobs c info d phase state index (some a ∷ rest) n w =
      let (q, k) =
        run_actions-jobs c info d phase state (suc index) rest (suc n) (a c info d w).1 in
      (ground (arith, q), λ m e. ground (arith, k m, e))

  run_states-jobs :
      (c : C) (info : Info S E) (d : T) (actions_of : S → List (Option (Action S E C T W)))
      (phase : Phase) (xs : List S) (n : ℕ) (w : W)
      → let (p, w') = run_states c info d actions_of phase xs n w in
        (forget p, w') ≡ run_jobs c info d (jobs_of actions_of phase xs n) w
  unfolding run_states
  run_states-jobs c info d actions_of phase [] n w = refl
  run_states-jobs c info d actions_of phase (x ∷ xs) n w =
      let now = jobs_at phase x 0 (actions_of x) n in
      let later = jobs_of actions_of phase xs (n + length now) in
      let (q, k) = run_actions-jobs c info d phase x 0 (actions_of x) n w in
      forgotten-bound (run_actions c info d phase x 0 (actions_of x) n w)
        (λ m w'. run_states c info d actions_of phase xs m w') (run_jobs c info d later)
        (λ m w' e.
          run_states-jobs c info d actions_of phase xs m w'
          ∙ ap (λ i. run_jobs c info d (jobs_of actions_of phase xs i) w') (k m e))
      ∙ ap (λ r. chain r (run_jobs c info d later)) q
      ∙ sym (run_jobs-append c info d now later w)

  run_effect-jobs :
      (c : C) (info : Info S E) (d : T) (effect : Option (Action S E C T W)) (w : W)
      → let (p, w') = run_effect c info d effect w in
        (forget p, w') ≡ run_jobs c info d (effect_job effect) w
  unfolding run_effect
  run_effect-jobs c info d none w = refl
  run_effect-jobs c info d (some a) w = ground arith

module _ {S E C T W : Type 0} ⦃ks : Key S⦄ where
  -- The exits from the source up, the effect, and the entries from above down.
  abbrev pub plan : Chart S E C T W → Transition S E C T W → List S → List S → List (Job S E C T W)
  plan chart t exits entries =
      jobs_of (exit_actions chart) exiting exits 0
      ++ (effect_job t.effect ++ jobs_of (entry_actions chart) entering entries 0)

  -- The three loops of Fire are one run of the planned actions.
  pub run_phases-plan :
      (chart : Chart S E C T W) (t : Transition S E C T W) (c : C) (info : Info S E) (d : T)
      (exits entries : List S) (w : W)
      → let (p, w') = run_phases chart t c info d exits entries w in
        (forget p, w') ≡ run_jobs c info d (plan chart t exits entries) w
  unfolding run_phases
  run_phases-plan chart t c info d exits entries w =
      let leaving = jobs_of (exit_actions chart) exiting exits 0 in
      let coming = jobs_of (entry_actions chart) entering entries 0 in
      forgotten-bound (run_states c info d (exit_actions chart) exiting exits 0 w)
        (λ _ w'.
          bound (run_effect c info d t.effect w')
            (λ _ w''. run_states c info d (entry_actions chart) entering entries 0 w''))
        (run_jobs c info d (effect_job t.effect ++ coming))
        (λ _ w' e.
          forgotten-bound (run_effect c info d t.effect w')
            (λ _ w''. run_states c info d (entry_actions chart) entering entries 0 w'')
            (run_jobs c info d coming)
            (λ _ w'' e'. run_states-jobs c info d (entry_actions chart) entering entries 0 w'')
          ∙ ap (λ r. chain r (run_jobs c info d coming)) (run_effect-jobs c info d t.effect w')
          ∙ sym (run_jobs-append c info d (effect_job t.effect) coming w'))
      ∙ ap (λ r. chain r (run_jobs c info d (effect_job t.effect ++ coming)))
          (run_states-jobs c info d (exit_actions chart) exiting exits 0 w)
      ∙ sym (run_jobs-append c info d leaving (effect_job t.effect ++ coming) w)
