-- ===== src/Queued/Bound.antt =====
-- The loop of one root ends within the event limit of its Runtime, and leaves the cascade closed.
use statemachine.Prelude.{
  ℕ, zero, suc, ◌+◌, ◌≤◌, ◌<◌, ◌≡◌, refl, sym, ap, subst, ◌∙◌, true, false, Option, none, some,
  List, [], ◌∷◌, arith, length, length-append, inl, inr, Option-cases,
}
use statemachine.Errors.{Error, panicked, threw, exited, Outcome, returned, unwound}
use statemachine.Keys.Defs.{Key}
use statemachine.Machine.Defs.{Machine, fire}
use statemachine.Instance.Defs.{Instance, fire_instance, begin, finish, commit, conclude}
use statemachine.Queued.Cascade.{
  Item, Cascade, next, abort, start, Enqueues, Extends, Bounded, Enqueues-Extends,
}
use statemachine.Queued.Run.{
  Progress, RootOutcome, After, over, goes_on, recover, publish, advance, proceed, round, rounds,
  run, join_failures,
}

module _ {S E C T V : Type 0} ⦃ks : Key S⦄ ⦃ke : Key E⦄ (context_error : C → V → Option Error)
    (observation_context : C → C) (m : Machine S E C T (Cascade C E T × V)) where
  -- Callbacks reach a cascade through Enqueue alone.
  abbrev pub Honest : Type 0
  Honest =
      (c : C) (s : S) (e : E) (d : T) (q : Cascade C E T) (v : V)
      → (items : List (Item C E T)) × Enqueues q (fire m c s e d (q, v)).1.0 items

  -- The Instance of a Runtime between two events: idle, without observers of its own.
  pub record Idle (i : Instance S E C T (Cascade C E T × V)) : Type 0 where
    pub machine : i.machine ≡ m
    pub unobserved : i.observers ≡ []
    pub idle : i.flying ≡ false

  -- Before an event is fired: it and those before it, n in all, and the pending ones were accepted.
  pub record Ready (p : Progress S E C T V) (n : ℕ) : Type 0 where
    pub owner : Idle p.owner
    pub bounded : Bounded p.cascade n
    pub active : p.cascade.active ≡ true

  pub record Closed (p : Progress S E C T V) : Type 0 where
    pub owner : Idle p.owner
    pub inactive : p.cascade.active ≡ false
    pub empty : p.cascade.pending ≡ []

  abbrev Good : ℕ → ℕ → After S E C T V → Type 0
  Good maximum n (over p o) = Closed p
  Good maximum n (goes_on p item) = Ready p (n + 1) × (p.cascade.maximum ≡ maximum)

  fired :
      (i : Instance S E C T (Cascade C E T × V)) (c : C) (e : E) (d : T) (w : Cascade C E T × V)
      → Idle i
      → let (i', o, w') = fire_instance i c e d w in Idle i' × (w' ≡ (fire m c i.state e d w).1)
  unfolding fire_instance begin finish commit conclude
  fired i c e d w h = ground arith

  Bounded-Extends :
      (q p : Cascade C E T) (items : List (Item C E T)) (n : ℕ)
      → Bounded q n
      → Extends q p items
      → Bounded p n
  Bounded-Extends q p items n b x = record {
    balanced =
        omega (arith, b.balanced, x.counted, ap length x.appended, length-append q.pending items);
    limited = x.kept b.limited;
  }

  publish-keeps :
      (p : Progress S E C T V) (current : Item C E T) (from to : S)
      → let p' = publish context_error observation_context p current from to in
        (p'.owner ≡ p.owner) × (p'.cascade ≡ p.cascade)
  unfolding publish
  publish-keeps p current from to = ground arith

  advance-Good :
      (p : Progress S E C T V) (to : S) (n : ℕ) (items : List (Item C E T))
      → p.cascade.pending ≡ items
      → Ready p n
      → Good p.cascade.maximum n (advance p to)
  unfolding advance next
  advance-Good p to n [] e r =
      rw (e, next) (record { owner = r.owner; inactive = refl; empty = refl })
  advance-Good p to n (item ∷ rest) e r =
      rw (e, next)
        (
          record {
            owner = r.owner;
            bounded = record {
              balanced = ground (arith, r.bounded.balanced);
              limited = r.bounded.limited;
            };
            active = r.active;
          },
          refl,
        )

  Ready-same :
      (p p' : Progress S E C T V) (n : ℕ)
      → (p'.owner ≡ p.owner) × (p'.cascade ≡ p.cascade)
      → Ready p n
      → Ready p' n
  Ready-same p p' n (o, q) r = record {
    owner = rw o r.owner;
    bounded = rw q r.bounded;
    active = rw q r.active;
  }

  proceed-Good :
      (p : Progress S E C T V) (current : Item C E T) (from : S) (o : Outcome (S × Option Error))
      (n : ℕ)
      → Ready p n
      → Good p.cascade.maximum n (proceed context_error observation_context p current from o)
  unfolding proceed recover abort
  proceed-Good p current from (unwound exited) n r = record {
    owner = r.owner;
    inactive = refl;
    empty = refl;
  }
  proceed-Good p current from (unwound (panicked k)) n r = record {
    owner = r.owner;
    inactive = refl;
    empty = refl;
  }
  proceed-Good p current from (unwound (threw e)) n r = record {
    owner = r.owner;
    inactive = refl;
    empty = refl;
  }
  proceed-Good p current from (returned (to, some e)) n r = record {
    owner = r.owner;
    inactive = refl;
    empty = refl;
  }
  proceed-Good p current from (returned (to, none)) n r =
      let keeps = publish-keeps p current from to in
      let p' = publish context_error observation_context p current from to in
      subst (λ q. Good q.maximum n (advance p' to)) keeps.1
        (advance-Good p' to n p'.cascade.pending refl (Ready-same p p' n keeps r))

  -- The progress when the Instance has answered.
  abbrev fired_progress : Progress S E C T V → Item C E T → Progress S E C T V
  fired_progress p current =
      let (i, answer, w) =
        fire_instance p.owner current.context current.event current.payload (p.cascade, p.world) in
      record p { owner = i; cascade = w.0; world = w.1 }

  after_fire :
      (p : Progress S E C T V) (current : Item C E T) (n : ℕ)
      → Honest
      → Ready p n
      → Ready (fired_progress p current) n
        × ((fired_progress p current).cascade.maximum ≡ p.cascade.maximum)
  after_fire p current n honest r =
      let (idle, w) =
        fired p.owner current.context current.event current.payload (p.cascade, p.world) r.owner in
      let (items, run) =
        honest current.context p.owner.state current.event current.payload p.cascade p.world in
      let x = Enqueues-Extends run in
      let bounded = Bounded-Extends _ _ items n r.bounded x in
      (
        record {
          owner = idle;
          bounded = rw (w, fired_progress) bounded;
          active = rw (w, fired_progress) (x.same_active ∙ r.active);
        },
        rw (w, fired_progress) x.same_maximum,
      )

  round-Good :
      (root : C) (p : Progress S E C T V) (current : Item C E T) (n : ℕ)
      → Honest
      → Ready p n
      → Good p.cascade.maximum n (round context_error observation_context root p current)
  unfolding round abort
  round-Good root p current n honest r = elim (Option-cases (context_error root p.world)) [
    | inr (e, h) ↦ rw (h, round) (record { owner = r.owner; inactive = refl; empty = refl })
    | inl h ↦ elim (Option-cases (context_error current.context p.world)) [
      | inr (e, k) ↦ rw (h, k, round) (record { owner = r.owner; inactive = refl; empty = refl })
      | inl k ↦
          rw (h, k, round)
            (let (ready, same) = after_fire p current n honest r in
              subst
                (λ b. Good b n (
                  proceed context_error observation_context (fired_progress p current) current
                    p.owner.state
                    (fire_instance p.owner current.context current.event current.payload
                      (p.cascade, p.world)).1))
                same
                (proceed-Good (fired_progress p current) current p.owner.state
                  (fire_instance p.owner current.context current.event current.payload
                    (p.cascade, p.world)).1
                  n ready))
    ]
  ]

  rounds-Closed :
      (fuel : ℕ) (root : C) (p : Progress S E C T V) (current : Item C E T) (n : ℕ)
      → Honest
      → Ready p n
      → p.cascade.maximum < fuel + n
      → (r : Progress S E C T V × RootOutcome S) × (rounds context_error observation_context fuel
            root p current
          ≡ some r)
        × Closed r.0
  unfolding rounds
  rounds-Closed zero root p current n honest r h =
      absurd (omega (arith, r.bounded.balanced, r.bounded.limited))
  rounds-Closed (suc fuel) root p current n honest r h =
      go (round context_error observation_context root p current)
        (λ p' item. rounds-Closed fuel root p' item (n + 1) honest)
        (round-Good root p current n honest r)
    where
      go :
          (a : After S E C T V)
          → ((p' : Progress S E C T V) (item : Item C E T)
              → Ready p' (n + 1)
              → p'.cascade.maximum < fuel + (n + 1)
              → (r' : Progress S E C T V × RootOutcome S) × (rounds context_error
                    observation_context fuel root p' item
                  ≡ some r')
                × Closed r'.0)
          → Good p.cascade.maximum n a
          → (r' : Progress S E C T V × RootOutcome S) × (elim a [
            | over p' o ↦ some (p', o)
            | goes_on p' item ↦ rounds context_error observation_context fuel root p' item
          ]
              ≡ some r')
            × Closed r'.0
      go (over p' o) ih g = ((p', o), refl, g)
      go (goes_on p' item) ih g = ih p' item g.0 (omega (arith, g.1))

  join_failures-first : (r : Progress S E C T V × RootOutcome S) → (join_failures r).0 ≡ r.0
  unfolding join_failures
  join_failures-first r = ground arith

  -- A root always comes to an outcome: with callbacks that reach the cascade through Enqueue alone,
  -- as many rounds as the event limit do. The cascade is then closed and empty, so that nothing can
  -- be enqueued any more, and the Instance is idle again under the same Machine.
  pub run-Closed :
      (fuel : ℕ) (execution_context : C → C) (limit : ℕ) (p : Progress S E C T V)
      (request : Item C E T)
      → Honest
      → Idle p.owner
      → 1 ≤ limit
      → limit ≤ fuel
      → (r : Progress S E C T V × RootOutcome S) × (run context_error observation_context fuel
            execution_context limit p request
          ≡ some r)
        × Closed r.0
  unfolding run start join_failures
  run-Closed fuel execution_context limit p request honest idle one enough =
      let first : Item C E T = record request { context = execution_context request.context } in
      let fresh : Progress S E C T V = record p { cascade = start limit; run = 0; failures = [] } in
      let ready : Ready fresh 1 = record {
        owner = idle;
        bounded = record { balanced = omega arith; limited = one };
        active = refl;
      } in
      let (r, e, closed) =
        rounds-Closed fuel request.context fresh first 1 honest ready (omega arith) in
      (join_failures r, rw (e, run), joined r closed)
    where
      joined : (r : Progress S E C T V × RootOutcome S) → Closed r.0 → Closed (join_failures r).0
      joined r c = subst Closed (sym (join_failures-first r)) c
