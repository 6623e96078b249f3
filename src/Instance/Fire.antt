-- ===== src/Instance/Fire.antt =====
-- The results of one call of Fire on an Instance.
use statemachine.Prelude.{ℕ, ◌+◌, ◌%◌, ◌≡◌, true, false, ◌⊎◌, none, some, List, [], ◌∷◌, arith}
use statemachine.Errors.{Error, leaf, Unwind, returned, unwound, in_flight}
use statemachine.Keys.Defs.{Key}
use statemachine.Machine.Defs.{fire}
use statemachine.Observer.Defs.{transition_observations, deliver, u64}
use statemachine.Instance.Defs.{Instance, begin, finish, commit, conclude, fire_instance, attached}

-- The numbers of a list of observations.
abbrev pub numbers : {O : Type 0} → List (O × ℕ) → List ℕ
numbers [] = []
numbers ((o, q) ∷ os) = q ∷ numbers os

module _ {S E C T W : Type 0} ⦃ks : Key S⦄ ⦃ke : Key E⦄ where
  -- Fire on an Instance that is firing already answers with the committed state and ErrInFlight,
  -- and neither the Machine nor an observer runs.
  pub fire_instance-busy :
      (i : Instance S E C T W) (c : C) (e : E) (d : T) (w : W)
      → i.flying ≡ true
      → fire_instance i c e d w ≡ (i, returned (i.state, some (leaf in_flight)), w)
  unfolding fire_instance begin
  fire_instance-busy i c e d w h = ground arith

  -- What one Fire on an idle Instance commits, for every answer of the Machine: the destination
  -- exactly where the Machine has no error, the old state on its error and on a Guard or effect
  -- that unwinds. The Instance is idle again, and keeps its Machine and its observers.
  pub fire_instance-commit :
      (i : Instance S E C T W) (c : C) (e : E) (d : T) (w : W)
      → i.flying ≡ false
      → let (i', r, w') = fire_instance i c e d w in
        (i'.flying ≡ false)
        × (i'.machine ≡ i.machine)
        × (i'.observers ≡ i.observers)
        × ((s : S) → (fire i.machine c i.state e d w).0 ≡ returned (s, none) → i'.state ≡ s)
        × ((s : S) (x : Error)
            → (fire i.machine c i.state e d w).0 ≡ returned (s, some x)
            → (i' ≡ i) × (r ≡ returned (i.state, some x)))
        × ((u : Unwind)
            → (fire i.machine c i.state e d w).0 ≡ unwound u
            → (i' ≡ i) × (r ≡ unwound u))
  unfolding fire_instance begin finish conclude commit deliver
  fire_instance-commit i c e d w h = ground arith

  -- Observation numbers run on without a gap, modulo 2^64: a Step that changes the state of an
  -- observed Instance has the two numbers behind the last one given out, and its own number is the
  -- first of them. Any other Step publishes nothing and leaves the numbers alone.
  pub commit-seq :
      (i : Instance S E C T W) (to : S) (e : E)
      → let (i', p) = commit i i.state to none in
        ((ks.beq i.state to ≡ false)
          → attached i.observers ≡ true
          → (p.observers ≡ i.observers)
            × (numbers (transition_observations p.step p.step i.state to e)
                ≡ (i.seq + 1) % u64 ∷ (i.seq + 2) % u64 ∷ [])
            × (i'.seq ≡ (i.seq + 2) % u64))
        × ((ks.beq i.state to ≡ true) ⊎ (attached i.observers ≡ false)
            → (p.observers ≡ []) × (i'.seq ≡ i.seq))
  unfolding commit transition_observations
  commit-seq i to e = ground arith
