-- ===== src/Supervised/Declared.antt =====
-- supervised/definition.go: what Compile gathers of a definition without defects is all it declares.
use statemachine.Prelude.{
  ℕ, ◌+◌, ◌≡◌, inl, inr, Bool, none, List, [], ◌∷◌, All, Option-cases, Bool-cases, subst,
  if◌then◌else◌, arith,
}
use statemachine.Keys.Defs.{Key}
use statemachine.Keys.Maps.{Map, lookup, insert, lookup-insert}
use statemachine.Supervised.Machine.{State}
use statemachine.Supervised.Snapshots.{is_some}
use statemachine.Supervised.Declarations.{gather_states, gather_events}
use statemachine.Supervised.Compile.{event_names}

module _ {ℓ} {K V : Type 0} ⦃k : Key K⦄ (Q : K × V → Type ℓ) where
  -- What holds of the entries of a map behind the insertion of a new key held before, too.
  All-insert :
      (i : K) (v : V) (m : Map K V) → lookup i m ≡ none → All Q (insert i v m) → Q (i, v) × All Q m
  unfolding lookup insert
  All-insert i v [] h q = q
  All-insert i v ((j, w) ∷ m) h q = elim (Bool-cases (k.beq j i)) [
    | inl same ↦ absurd (ground (arith, h, same))
    | inr other ↦
        let kept : All Q ((j, w) ∷ insert i v m) =
          subst (λ b. All Q (if b then (i, v) ∷ m else (j, w) ∷ insert i v m)) other q in
        let (here, there) = All-insert i v m (ground (arith, h, other)) kept.1 in
        (here, (kept.0, there))
  ]

-- The same names stand in both maps.
abbrev pub Alike : {K V U : Type 0} ⦃k : Key K⦄ → Map K V → Map K U → Type 0
Alike {K} at known = (x : K) → is_some (lookup x at) ≡ is_some (lookup x known)

module _ {S : Type 0} ⦃ks : Key S⦄ where
  Alike-insert :
      (name : S) (i : ℕ) (b : Bool) (at : Map S ℕ) (known : Map S Bool)
      → Alike at known
      → Alike (insert name i at) (insert name b known)
  Alike-insert name i b at known h x =
      ground (arith, lookup-insert x name i at, lookup-insert x name b known, h x)

module _ {ℓ} {S E : Type 0} ⦃ks : Key S⦄ ⦃ke : Key E⦄ where
  -- What holds of all that is gathered holds of every declared state.
  pub gather_states-All :
      (Q : S × Bool → Type ℓ) (i : ℕ) (ss : List (State S E)) (at : Map S ℕ) (known : Map S Bool)
      → Alike at known
      → (gather_states i ss at known).0 ≡ []
      → All Q (gather_states i ss at known).2
      → All (λ (s : State S E). Q (s.name, s.terminal)) ss × All Q known
  unfolding gather_states
  gather_states-All Q i [] at known a h q = (tt, q)
  gather_states-All Q i (s ∷ ss) at known a h q = elim (Option-cases (lookup s.name at)) [
    | inr (j, before) ↦ absurd (ground (arith, h, before))
    | inl new ↦
        let at' = insert s.name i at in
        let known' = insert s.name s.terminal known in
        let clean : (gather_states (i + 1) ss at' known').0 ≡ [] = ground (arith, h, new) in
        let same : (gather_states i (s ∷ ss) at known).2 ≡ (gather_states (i + 1) ss at' known').2 =
          ground (arith, new) in
        let (rest, held) =
          gather_states-All Q (i + 1) ss at' known' (Alike-insert s.name i s.terminal at known a)
            clean (subst (λ m. All Q m) same q) in
        let (here, before) =
          All-insert Q s.name s.terminal known (ground (arith, a s.name, new)) held in
        ((here, rest), before)
  ]

  gather_events-All :
      (Q : E × ℕ → Type ℓ) (i : ℕ) (es : List E) (at : Map E ℕ)
      → (gather_events {S = S} i es at).0 ≡ []
      → All Q (gather_events {S = S} i es at).1
      → All (λ e. (j : ℕ) × Q (e, j)) es × All Q at
  unfolding gather_events
  gather_events-All Q i [] at h q = (tt, q)
  gather_events-All Q i (e ∷ es) at h q = elim (Option-cases (lookup e at)) [
    | inr (j, before) ↦ absurd (ground (arith, h, before))
    | inl new ↦
        let at' = insert e i at in
        let clean : (gather_events {S = S} (i + 1) es at').0 ≡ [] = ground (arith, h, new) in
        let same : (gather_events {S = S} i (e ∷ es) at).1
            ≡ (gather_events {S = S} (i + 1) es at').1 =
          ground (arith, new) in
        let (rest, held) = gather_events-All Q (i + 1) es at' clean (subst (λ m. All Q m) same q) in
        let (here, before) = All-insert Q e i at new held in (((i, here), rest), before)
  ]

module _ {ℓ} {E : Type 0} (P : E → Type ℓ) where
  All-event_names : (m : Map E ℕ) → All P (event_names m) → All (λ p. P p.0) m
  All-event_names [] h = tt
  All-event_names ((e, i) ∷ m) h = (h.0, All-event_names m h.1)

  drop_index : (es : List E) → All (λ e. (j : ℕ) × P e) es → All P es
  drop_index [] h = tt
  drop_index (e ∷ es) h = (h.0.1, drop_index es h.1)

module _ {ℓ} {S E : Type 0} ⦃ks : Key S⦄ ⦃ke : Key E⦄ (P : E → Type ℓ) where
  -- What holds of the names of all gathered events holds of every declared event.
  pub gather_events-names :
      (es : List E)
      → (gather_events {S = S} 0 es []).0 ≡ []
      → All P (event_names (gather_events {S = S} 0 es []).1)
      → All P es
  gather_events-names es h k =
      drop_index P es (gather_events-All {S = S} (λ p. P p.0) 0 es [] h (All-event_names P _ k)).0
