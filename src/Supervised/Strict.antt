-- ===== src/Supervised/Strict.antt =====
-- supervised/definition.go: what Compile has checked of a definition that it accepts.
use statemachine.Prelude.{
  All-map, ℕ, ◌==◌, ◌≡◌, ◌⊎◌, inl, inr, refl, Bool, true, false, not, ◌&&◌, ◌||◌, some, List, [],
  ◌∷◌, ◌++◌, length, All, Bool-cases, Option-cases, arith,
}
use statemachine.Errors.{Result, ok, err}
use statemachine.Keys.Defs.{Key, value, both_key}
use statemachine.Keys.Maps.{Map, elem, lookup}
use statemachine.Supervised.Answering.{places, refusals, gather_rows-elem, gather_all_refusals-elem}
use statemachine.Supervised.Declared.{gather_states-All, gather_events-names}
use statemachine.Supervised.Machine.{State, Transition, Definition, Row, Machine}
use statemachine.Supervised.Snapshots.{is_some}
use statemachine.Supervised.Declarations.{
  invalid_keys, gather_states, gather_events, gather_all_refusals, Defect, no_states,
  undeclared_initial, keys_valid, all_of,
}
use statemachine.Supervised.DeclaredRows.{when, gather_rows}
use statemachine.Supervised.Compile.{
  event_names, Gathered, unhandled_events, has_outgoing, total_defects, unreachable_states,
  reach_defects, gather, machine_of, type_defects, group_defects, compile_strict,
}
use statemachine.Supervised.Reachable.{reached-Closed}

++-nil : {A : Type 0} (xs ys : List A) → xs ++ ys ≡ [] → (xs ≡ []) × (ys ≡ [])
++-nil [] ys h = (refl, h)
++-nil (x ∷ xs) ys h = absurd (ground (arith, h))

when-nil : {S E : Type 0} (b : Bool) (d : Defect S E) → when b d ≡ [] → b ≡ false
when-nil false d h = refl
when-nil true d h = absurd (ground (arith, h))

List-cases : {A : Type 0} (xs : List A) → (xs ≡ []) ⊎ ((x : A) × (ys : List A) × (xs ≡ x ∷ ys))
List-cases [] = inl refl
List-cases (x ∷ xs) = inr (x, xs, refl)

module _ {S E : Type 0} ⦃ks : Key S⦄ where
  unreachable_states-nil :
      (known : Map S Bool) (reachable : List S)
      → unreachable_states {E = E} known reachable ≡ []
      → All (λ p. elem p.0 reachable ≡ true) known
  unfolding unreachable_states
  unreachable_states-nil [] reachable h = tt
  unreachable_states-nil ((name, terminal) ∷ known) reachable h =
      let (a, b) =
        ++-nil (when (not (elem name reachable)) _) (unreachable_states known reachable) h in
      let found = when-nil (not (elem name reachable)) _ a in
      (ground (arith, found), unreachable_states-nil known reachable b)

module _ {S E C T W : Type 0} ⦃ks : Key S⦄ ⦃ke : Key E⦄ where
  -- The state handles or refuses the event.
  abbrev pub Answers : Map (S × E) (List (Row S E C T W)) → List (S × E) → S → E → Type 0
  Answers rows refused name e = (is_some (lookup (name, e) rows) || elem (name, e) refused) ≡ true

  unhandled_events-nil :
      (name : S) (events : Map E ℕ) (rows : Map (S × E) (List (Row S E C T W)))
      (refused : List (S × E))
      → unhandled_events name events rows refused ≡ []
      → All (Answers rows refused name) (event_names events)
  unfolding unhandled_events
  unhandled_events-nil name [] rows refused h = tt
  unhandled_events-nil name ((e, i) ∷ es) rows refused h =
      elim (Bool-cases (is_some (lookup (name, e) rows) || elem (name, e) refused)) [
        | inl answers ↦
            (answers, unhandled_events-nil name es rows refused (ground (arith, h, answers)))
        | inr silent ↦ absurd (ground (arith, h, silent))
      ]

  -- A state that is not terminal answers every event, and leaves.
  abbrev pub Total : Map E ℕ → Map (S × E) (List (Row S E C T W)) → List (S × E) → S × Bool → Type 0
  Total events rows refused (name, terminal) =
      (terminal ≡ true)
      ⊎ (All (Answers rows refused name) (event_names events)
          × (has_outgoing name events rows ≡ true))

  total_defects-nil :
      (known : Map S Bool) (events : Map E ℕ) (rows : Map (S × E) (List (Row S E C T W)))
      (refused : List (S × E))
      → total_defects known events rows refused ≡ []
      → All (Total events rows refused) known
  unfolding total_defects
  total_defects-nil [] events rows refused h = tt
  total_defects-nil ((name, true) ∷ known) events rows refused h =
      (inl refl, total_defects-nil known events rows refused h)
  total_defects-nil ((name, false) ∷ known) events rows refused h =
      let (a, b) = ++-nil (unhandled_events name events rows refused) _ h in
      let (c, k) = ++-nil _ (total_defects known events rows refused) b in
      let leaves = when-nil (not (has_outgoing name events rows)) _ c in
      (
        inr (unhandled_events-nil name events rows refused a, ground (arith, leaves)),
        total_defects-nil known events rows refused k,
      )

  gather-nil :
      (d : Definition S E C T W)
      → (gather d).defects ≡ []
      → (total_defects (gather d).known (gather d).event_at (gather d).rows (gather d).refused ≡ [])
        × (is_some (lookup d.initial (gather d).at) ≡ true)
        × ((gather_states 0 d.states [] []).0 ≡ [])
        × ((gather_events {S = S} 0 d.events []).0 ≡ [])
  unfolding gather
  gather-nil d h =
      let states = gather_states 0 d.states [] [] in
      let events = gather_events 0 d.events [] in
      let refusals = gather_all_refusals 0 d.states events.1 [] in
      let rows = gather_rows 0 d.transitions states.1 states.2 events.1 refusals.1 [] [] [] in
      let (_, below_types) = ++-nil (type_defects d) _ h in
      let (groups, below_groups) = ++-nil (group_defects d) _ below_types in
      let (once_each, below_states) = ++-nil states.0 _ below_groups in
      let (initial, below_initial) = ++-nil _ _ below_states in
      let (each_once, below_events) = ++-nil events.0 _ below_initial in
      let (_, below_refusals) = ++-nil refusals.0 _ below_events in
      let (_, totals) = ++-nil rows.0 _ below_refusals in
      let some_state = when-nil (length d.states == 0) no_states (++-nil _ _ groups).0 in
      let declared =
        when-nil (not (is_some (lookup d.initial states.1)) && not (length d.states == 0))
          undeclared_initial initial in
      (totals, ground (arith, declared, some_state), once_each, each_once)

  -- What Compile did where it accepts.
  accepted :
      (d : Definition S E C T W) (m : Machine S E C T W)
      → compile_strict d ≡ some (ok m)
      → (more : List (Defect S E)) × (keys_valid d ≡ true)
        × (reach_defects d (gather d).at (gather d).known ≡ some more)
        × ((gather d).defects ≡ [])
        × (more ≡ [])
        × (machine_of d (gather d) ≡ m)
  unfolding compile_strict
  accepted d m h = elim (Bool-cases (ks.strict_type && ke.strict_type)) [
    | inr loose ↦ absurd (ground (arith, h, loose))
    | inl strict ↦ elim (Bool-cases (keys_valid d)) [
      | inr bad ↦ absurd (ground (arith, h, strict, bad))
      | inl good ↦ elim (Option-cases (reach_defects d (gather d).at (gather d).known)) [
        | inl spent ↦ absurd (ground (arith, h, strict, good, spent))
        | inr (more, found) ↦ elim (List-cases ((gather d).defects ++ more)) [
          | inr (e, es, some_defect) ↦ absurd (ground (arith, h, strict, good, found, some_defect))
          | inl clean ↦
              let (a, b) = ++-nil (gather d).defects more clean in
              (more, good, found, a, b, ground (arith, h, strict, good, found, clean))
        ]
      ]
    ]
  ]

  -- The keys that Compile tests equal themselves.
  all_self :
      (ts : List (Transition S E C T W))
      → all_of (λ (t : Transition S E C T W). value t.from && (value t.event && value t.to)) ts
        ≡ true
      → All (λ t. ks.beq t.to t.to ≡ true) ts
  all_self [] h = tt
  all_self (t ∷ ts) h = (ground (arith, h), all_self ts (ground (arith, h)))

  keys_valid_self :
      (d : Definition S E C T W)
      → keys_valid d ≡ true
      → (ks.beq d.initial d.initial ≡ true) × All (λ t. ks.beq t.to t.to ≡ true) d.transitions
  unfolding keys_valid
  keys_valid_self d h = (ground (arith, h), all_self d.transitions (ground (arith, h)))

  reach_defects-answers :
      (d : Definition S E C T W) (at : Map S ℕ) (known : Map S Bool)
      → keys_valid d ≡ true
      → (more : List (Defect S E)) × (reach_defects d at known ≡ some more)
  unfolding reach_defects
  reach_defects-answers d at known h =
      let (self, selves) = keys_valid_self d h in
      let (reachable, found, _, _, _) = reached-Closed d.initial d.transitions self selves in
      elim (Option-cases (lookup d.initial at)) [
        | inl absent ↦ ([], ground (arith, absent))
        | inr (i, there) ↦ (unreachable_states known reachable, ground (arith, there, found))
      ]

  -- Compile always comes to an answer: the search for reachable states does not run out of fuel.
  pub compile_strict-answers :
      (d : Definition S E C T W)
      → (r : Result (List (Defect S E)) (Machine S E C T W)) × (compile_strict d ≡ some r)
  unfolding compile_strict
  compile_strict-answers d = elim (Bool-cases (ks.strict_type && ke.strict_type)) [
    | inr loose ↦ (err (type_defects d), ground (arith, loose))
    | inl strict ↦ elim (Bool-cases (keys_valid d)) [
      | inr bad ↦ (err (invalid_keys ∷ []), ground (arith, strict, bad))
      | inl good ↦
          let (more, found) = reach_defects-answers d (gather d).at (gather d).known good in
          elim (List-cases ((gather d).defects ++ more)) [
            | inl clean ↦ (ok (machine_of d (gather d)), ground (arith, strict, good, found, clean))
            | inr (e, es, some_defect) ↦
                (err (e ∷ es), ground (arith, strict, good, found, some_defect))
          ]
    ]
  ]

  -- A declared row has this From and Event, or a declared state of this name refuses the event.
  abbrev pub Declares : Definition S E C T W → S → E → Type 0
  Declares d name e =
      (elem (name, e) (places d.transitions) || elem (name, e) (refusals d.states)) ≡ true

  -- The state is terminal or every declared event is handled or refused in it; and it is reachable.
  abbrev pub Checked : Definition S E C T W → S × Bool → Type 1
  Checked d (name, terminal) =
      ((terminal ≡ true) ⊎ All (Declares d name) d.events)
      × ((P : S → Type 0) → All (λ t. P t.from → P t.to) d.transitions → P d.initial → P name)

  all-Checked :
      (d : Definition S E C T W) (g : Gathered S E C T W) (reachable : List S) (known : Map S Bool)
      → ((name : S)
          → All (Answers g.rows g.refused name) (event_names g.event_at)
          → All (Declares d name) d.events)
      → All (Total g.event_at g.rows g.refused) known
      → All (λ p. elem p.0 reachable ≡ true) known
      → ((P : S → Type 0)
          → All (λ t. P t.from → P t.to) d.transitions
          → P d.initial
          → (x : S) → elem x reachable ≡ true
          → P x)
      → All (Checked d) known
  all-Checked d g reachable [] names h k least = tt
  all-Checked d g reachable ((name, terminal) ∷ known) names (inl final, h) (there, k) least = (
    (inl final, λ P step i. least P step i name there),
    all-Checked d g reachable known names h k least,
  )
  all-Checked d g reachable ((name, terminal) ∷ known) names (inr total, h) (there, k) least = (
    (inr (names name total.0), λ P step i. least P step i name there),
    all-Checked d g reachable known names h k least,
  )

  -- What answers an event in the gathered maps is declared.
  Answers-Declares :
      (d : Definition S E C T W) (name : S) (e : E)
      → Answers (gather d).rows (gather d).refused name e
      → Declares d name e
  unfolding gather lookup elem
  Answers-Declares d name e h =
      let k : S × E = (name, e) in
      let at = (gather_events {S = S} 0 d.events []).1 in
      let refused = gather_all_refusals 0 d.states at [] in
      let states = gather_states {E = E} 0 d.states [] [] in
      let rows = gather_rows 0 d.transitions states.1 states.2 at refused.1 [] [] [] in
      elim (Bool-cases (is_some (lookup k rows.1))) [
        | inl handled ↦
            let declared =
              gather_rows-elem k 0 d.transitions states.1 states.2 at refused.1 [] [] [] handled in
            ground (arith, declared)
        | inr silent ↦
            let declared =
              gather_all_refusals-elem k 0 d.states at [] (ground (arith, h, silent)) in
            ground (arith, declared)
      ]

  -- The answers of a state to the gathered events are declared for all that are declared.
  named-Declares :
      (d : Definition S E C T W)
      → (gather_events {S = S} 0 d.events []).0 ≡ []
      → (name : S)
      → All (Answers (gather d).rows (gather d).refused name) (event_names (gather d).event_at)
      → All (Declares d name) d.events
  unfolding gather
  named-Declares d h name k =
      let answers = Answers (gather d).rows (gather d).refused name in
      All-map answers (Declares d name) d.events (Answers-Declares d name)
        (gather_events-names {S = S} answers d.events h k)

  declared-Checked :
      (d : Definition S E C T W) (Q : S × Bool → Type 1)
      → (gather_states 0 d.states [] []).0 ≡ []
      → All Q (gather d).known
      → All (λ (s : State S E). Q (s.name, s.terminal)) d.states
  unfolding gather lookup
  declared-Checked d Q h k = (gather_states-All Q 0 d.states [] [] (λ x. refl) h k).0

  -- Of a definition that Compile accepts, each declared state is declared terminal, or for every
  -- declared event a declared row leads on from it or it is declared to refuse the event; and each is
  -- reachable: whatever holds of the initial state and is
  -- carried on by every declared row holds of it.
  pub compile_strict-Total :
      (d : Definition S E C T W) (m : Machine S E C T W)
      → compile_strict d ≡ some (ok m)
      → All (λ (s : State S E). Checked d (s.name, s.terminal)) d.states
  unfolding reach_defects
  compile_strict-Total d m h =
      let (more, good, found, clean, reaches, made) = accepted d m h in
      let (totals, initial, states_once, events_once) = gather-nil d clean in
      let (self, selves) = keys_valid_self d good in
      let (reachable, ends, _, _, least) = reached-Closed d.initial d.transitions self selves in
      elim (Option-cases (lookup d.initial (gather d).at)) [
        | inl absent ↦ absurd (ground (arith, initial, absent))
        | inr (i, there) ↦
            let none_left : unreachable_states {E = E} (gather d).known reachable ≡ [] =
              ground (arith, found, there, ends, reaches) in
            let all =
              all-Checked d (gather d) reachable (gather d).known (named-Declares d events_once)
                (total_defects-nil (gather d).known (gather d).event_at (gather d).rows
                  (gather d).refused totals)
                (unreachable_states-nil (gather d).known reachable none_left) least in
            declared-Checked d (Checked d) states_once all
      ]
