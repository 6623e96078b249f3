-- ===== src/Persist/Contract.antt =====
-- What Fire and Step of persist/persist.go promise for every store, however it keeps its contract.
use statemachine.Prelude.{
  ◌≡◌, refl, true, false, ◌⊎◌, inl, inr, Option, none, some, [], ◌∷◌, arith, ◌↔◌, Bool-cases,
}
use statemachine.Errors.{
  Error, leaf, tree, of_list, store_contract, step_repeated, Outcome, returned, unwound,
}
use statemachine.Keys.Defs.{Key, value}
use statemachine.Machine.Defs.{Machine, fire}
use statemachine.Instance.Defs.{Instance, new_instance, fire_instance, begin, conclude, commit}
use statemachine.Persist.Apply.{
  Strategy, calls, returns, unwinds, Store, StepResult, Attempt, settle_step, fire_step, step,
  run_update, judge, fresh, apply,
}

settle_step-started :
    {S E : Type 0} (a : Attempt S E) (o : Outcome (S × Option Error))
    → (settle_step a o).started ≡ a.started
unfolding settle_step
settle_step-started a (returned r) = refl
settle_step-started a (unwound u) = refl

module _ {C S E T X W : Type 0} ⦃ks : Key S⦄ ⦃ke : Key E⦄ (machine : Machine S E C T W) (event : E)
    (make_data : X → W → Outcome T × W) where
  -- Behind a first call the step runs nothing more: it only notes a repetition.
  run_update-started :
      (s : Strategy C S X) (a : Attempt S E) (w : W)
      → a.started ≡ true
      → let (a', r, w') = run_update machine event make_data s a w in
        (a' ≡ record a { repeated = a'.repeated }) × (w' ≡ w)
  unfolding run_update step
  run_update-started (returns x e) a w h = (refl, refl)
  run_update-started (unwinds u) a w h = (refl, refl)
  run_update-started (calls c from x k) a w h = ground (
    arith,
    run_update-started
        (k (returned (from, some (tree (of_list (leaf store_contract ∷ leaf step_repeated ∷ []))))))
        (record a { repeated = true }) w h,
  )

  fire_step-started :
      (a : Attempt S E) (c : C) (from : S) (o : Outcome T × W)
      → (fire_step machine event make_data a c from o).0.started ≡ a.started
  unfolding fire_step
  fire_step-started a c from (unwound u, w) = refl
  fire_step-started a c from (returned v, w) = settle_step-started _ _

  -- What a store's first call of the step comes to.
  abbrev pub first_step : S → C → S → Outcome T × W → Attempt S E × Outcome (S × Option Error) × W
  first_step zero_state =
      fire_step machine event make_data (record (fresh zero_state event) { started = true })

  run_update-cases :
      (zero_state : S) (s : Strategy C S X) (w : W)
      → let (a, r, w') = run_update machine event make_data s (fresh zero_state event) w in
        ((a ≡ fresh zero_state event) × (w' ≡ w))
        ⊎ ((c : C) × (from : S) × (x : X) × (k : Outcome (S × Option Error) → Strategy C S X) × (s
              ≡ calls c from x k)
            × (a ≡ record ((first_step zero_state c from (make_data x w)).0) {
              repeated = a.repeated;
            })
            × (w' ≡ (first_step zero_state c from (make_data x w)).2))
  unfolding run_update step
  run_update-cases z (returns x e) w = inl (refl, refl)
  run_update-cases z (unwinds u) w = inl (refl, refl)
  run_update-cases z (calls c from x k) w =
      let p = first_step z c from (make_data x w) in
      let more = run_update-started (k p.1) p.0 p.2 (fire_step-started _ c from (make_data x w)) in
      inr (c, from, x, k, refl, more.0, more.1)

-- The one firing on a fresh Instance that a step comes to.
abbrev pub firing :
    {C S E T W : Type 0} ⦃ks : Key S⦄ ⦃ke : Key E⦄
    → Machine S E C T W
    → E
    → C
    → S
    → T
    → W
    → Instance S E C T W × Outcome (S × Option Error) × W
firing machine event c from value w =
    fire_instance (new_instance (some machine) from []) c event value w

-- A fresh Instance without observers fires as its Machine does.
firing-fire :
    {C S E T W : Type 0} ⦃ks : Key S⦄ ⦃ke : Key E⦄ (machine : Machine S E C T W) (event : E) (c : C)
    (from : S) (value : T) (w : W)
    → ((firing machine event c from value w).2 ≡ (fire machine c from event value w).1)
      × ((s : S)
          → (firing machine event c from value w).1 ≡ returned (s, none)
          → (fire machine c from event value w).0 ≡ returned (s, none))
unfolding new_instance fire_instance begin conclude commit
firing-fire machine event c from value w = ground arith

-- Success is reported exactly where the step was called once, came to its end without an error, and
-- the store, without an error either, returned the very state that the step gave it.
pub judge-none :
    {S E : Type 0} ⦃ks : Key S⦄ (a : Attempt S E) (state : S) (e : Option Error)
    → a.result.confirmed ≡ false
    → let (s, r, x) = judge a state e in
      ((x ≡ none) ↔ (
        (a.started ≡ true)
        × (a.completed ≡ true)
        × (a.repeated ≡ false)
        × (e ≡ none)
        × (a.result.transition_error ≡ none)
        × (value state ≡ true)
        × (ks.beq state a.result.to ≡ true)))
      × ((r.confirmed ≡ true) ↔ (x ≡ none))
      × (s ≡ state)
unfolding judge
judge-none a state e h = ground arith

module _ {S E : Type 0} ⦃ks : Key S⦄ (a : Attempt S E) (s0 : S) (e0 : Option Error) (z : S)
    (event : E) where
  -- Without a call of the step there is no success.
  never_started :
      (s : S) (r : StepResult S E) → a ≡ fresh z event → judge a s0 e0 ≡ (s, r, none) → ⊥
  never_started s r q h = ground (arith, judge-none a s0 e0)

  -- With one, success means that its firing had none but the destination to tell.
  confirmed_by :
      (from : S) (answer : Outcome (S × Option Error)) (s : S) (r : StepResult S E)
      → a
        ≡ record (settle_step
            (record {
              result = record {
                from = from;
                to = from;
                event = event;
                attempted = true;
                confirmed = false;
                transition_error = none;
              };
              started = true;
              repeated = false;
              completed = false;
            })
            answer) { repeated = a.repeated }
      → judge a s0 e0 ≡ (s, r, none)
      → (answer ≡ returned (s, none))
        × (r ≡ record {
          from = from;
          to = s;
          event = event;
          attempted = true;
          confirmed = true;
          transition_error = none;
        })
  unfolding settle_step judge
  confirmed_by from (returned (to, te)) s r q h = (
    ground (arith, judge-none a s0 e0, ks.beq-eq s0 to),
    ground (arith, judge-none a s0 e0, ks.beq-eq s0 to),
  )
  confirmed_by from (unwound u) s r q h = absurd (ground (arith, judge-none a s0 e0))

module _ {C S E T X W : Type 0} ⦃ks : Key S⦄ ⦃ke : Key E⦄ (machine : Machine S E C T W) (event : E)
    (make : X → W → Outcome T × W) where
  -- The world that a step leaves behind its call of data: one firing of the Machine changes it, where
  -- data returns.
  abbrev pub stepped : C → S → Outcome T × W → W
  stepped c from (unwound u, w) = w
  stepped c from (returned value, w) = (fire machine c from event value w).1

  first_step-stepped :
      (z : S) (c : C) (from : S) (o : Outcome T × W)
      → (first_step machine event make z c from o).2 ≡ stepped c from o
  unfolding fire_step
  first_step-stepped z c from (unwound u, w) = refl
  first_step-stepped z c from (returned v, w) = (firing-fire machine event c from v w).0

  -- Success means that data returned, and the firing had but the destination to tell.
  stepped_by :
      (a : Attempt S E) (s0 : S) (e0 : Option Error) (z : S) (c : C) (from : S) (o : Outcome T × W)
      (s : S) (r : StepResult S E)
      → a ≡ record ((first_step machine event make z c from o).0) { repeated = a.repeated }
      → judge a s0 e0 ≡ (s, r, none)
      → (v : T) × (w : W) × (o ≡ (returned v, w))
        × ((firing machine event c from v w).1 ≡ returned (s, none))
        × (r ≡ record {
          from = from;
          to = s;
          event = event;
          attempted = true;
          confirmed = true;
          transition_error = none;
        })
  unfolding fire_step
  stepped_by a s0 e0 z c from (unwound u, w) s r q h = absurd (ground (arith, judge-none a s0 e0))
  stepped_by a s0 e0 z c from (returned v, w) s r q h =
      let (done, told) =
        confirmed_by a s0 e0 z event from (firing machine event c from v w).1 s r q h in
      (v, w, refl, done, told)

module _ {C K S E T X W : Type 0} ⦃kk : Key K⦄ ⦃ks : Key S⦄ ⦃ke : Key E⦄ where
  -- Whatever a store does with the step that it is given, the call leaves the world as it was, or as
  -- the store's first call of the step leaves it: with the state and the unit of work of that call,
  -- data runs once, and the Machine fires once behind it unless data unwinds. So the selected effect
  -- runs at most once.
  pub apply-once :
      (zero_state : S) (zero_data : T) (c : C) (store : Store C K S X) (key : K)
      (machine : Machine S E C T W) (event : E) (make : X → W → Outcome T × W) (w : W)
      → let (r, w') =
          apply zero_state zero_data c (some store) key (some machine) event (some make) w in
        (w' ≡ w)
        ⊎ ((c' : C) × (from : S) × (x : X) × (k : Outcome (S × Option Error) → Strategy C S X)
            × (store c key ≡ calls c' from x k)
            × (w' ≡ stepped machine event make c' from (make x w)))
  unfolding apply
  apply-once z zd c store key machine event make w =
      elim (run_update-cases machine event make z (store c key) w) [
        | inl (a, e) ↦ inl (ground arith)
        | inr (c', from, x, k, called, a, e) ↦ elim (Bool-cases (value key)) [
          | inl valid ↦
              let left_by = first_step-stepped machine event make z c' from (make x w) in
              inr (c', from, x, k, called, ground (arith, left_by))
          | inr invalid ↦ inl (ground arith)
        ]
      ]

  apply-returned :
      (z : S) (zd : T) (c : C) (store : Store C K S X) (key : K) (machine : Machine S E C T W)
      (event : E) (make : X → W → Outcome T × W) (w w' : W) (s : S) (r : StepResult S E)
      → apply z zd c (some store) key (some machine) event (some make) w
        ≡ (returned (s, r, none), w')
      → let (a, answer, w'') = run_update machine event make (store c key) (fresh z event) w in
        (s0 : S) × (e0 : Option Error) × (answer ≡ returned (s0, e0))
        × (w'' ≡ w')
        × (judge a s0 e0 ≡ (s, r, none))
  unfolding apply
  apply-returned z zd c store key machine event make w w' s r h =
      go (run_update machine event make (store c key) (fresh z event) w).1 refl
    where
      go :
          (o : Outcome (S × Option Error))
          → (run_update machine event make (store c key) (fresh z event) w).1 ≡ o
          → (s0 : S) × (e0 : Option Error) × ((run_update machine event make
                (store c key)
                (fresh z event)
                w).1
              ≡ returned (s0, e0))
            × ((run_update machine event make (store c key) (fresh z event) w).2 ≡ w')
            × (judge (run_update machine event make (store c key) (fresh z event) w).0 s0 e0
                ≡ (s, r, none))
      go (returned (s0, e0)) q = (s0, e0, q, ground arith, ground arith)
      go (unwound u) q = absurd (ground arith)

  -- A call without an error means that the transition happened: the store's first call of the step
  -- was with a loaded state and a unit of work, data of that unit returned a value, and the Machine
  -- fired on it once, in that state and without an error; its destination is what the store
  -- returned, the world is the one that firing left, and the result is confirmed and names both
  -- states.
  pub apply-success :
      (zero_state : S) (zero_data : T) (c : C) (store : Store C K S X) (key : K)
      (machine : Machine S E C T W) (event : E) (make : X → W → Outcome T × W) (w w' : W) (s : S)
      (r : StepResult S E)
      → apply zero_state zero_data c (some store) key (some machine) event (some make) w
        ≡ (returned (s, r, none), w')
      → (c' : C) × (from : S) × (x : X) × (k : Outcome (S × Option Error) → Strategy C S X)
        × (v : T) × (u : W) × (store c key ≡ calls c' from x k)
        × (make x w ≡ (returned v, u))
        × (fire machine c' from event v u ≡ (returned (s, none), w'))
        × (r ≡ record {
          from = from;
          to = s;
          event = event;
          attempted = true;
          confirmed = true;
          transition_error = none;
        })
  unfolding apply
  apply-success z zd c store key machine event make w w' s r h =
      let run = run_update machine event make (store c key) (fresh z event) w in
      let (s0, e0, answered, left_by, judged) =
        apply-returned z zd c store key machine event make w w' s r h in
      elim (run_update-cases machine event make z (store c key) w) [
        | inl (a, e) ↦ absurd (never_started (run.0) s0 e0 z event s r a judged)
        | inr (c', from, x, k, called, a, e) ↦
            let (v, u, made, done, told) =
              stepped_by machine event make run.0 s0 e0 z c' from (make x w) s r a judged in
            let fired = (firing-fire machine event c' from v u).1 s done in
            let ends = first_step-stepped machine event make z c' from (make x w) in
            (c', from, x, k, v, u, called, made, ground (arith, made, fired, ends), told)
      ]
