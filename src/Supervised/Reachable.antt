-- ===== src/Supervised/Reachable.antt =====
-- supervised/definition.go: the search for reachable states ends, at the least set of states that is
-- closed under the rows.
use statemachine.Prelude.{
  ℕ, zero, suc, ◌+◌, ◌≤◌, ◌<◌, ◌≡◌, ◌⊎◌, inl, inr, refl, subst, Bool, true, false, not, ◌&&◌,
  Option, some, List, [], ◌∷◌, ◌++◌, if◌then◌else◌, length, All, Bool-cases, arith,
}
use statemachine.Keys.Defs.{Key}
use statemachine.Keys.Maps.{elem, elem-append}
use statemachine.Supervised.Machine.{Transition}
use statemachine.Supervised.Compile.{grow, reach_rounds, reached}

module _ {S : Type 0} ⦃ks : Key S⦄ where
  elem-more :
      (x y : S) (reachable : List S) → elem x reachable ≡ true → elem x (reachable ++ y ∷ []) ≡ true
  elem-more x y reachable h = rw (elem-append x reachable (y ∷ []), h) refl

  elem-last : (y : S) (reachable : List S) → ks.beq y y ≡ true → elem y (reachable ++ y ∷ []) ≡ true
  unfolding elem
  elem-last y reachable h = ground (arith, elem-append y reachable (y ∷ []), h)

  last_or :
      (P : S → Type 0) (x y : S) (reachable : List S)
      → ((z : S) → elem z reachable ≡ true → P z)
      → P y
      → elem x (reachable ++ y ∷ []) ≡ true
      → P x
  unfolding elem
  last_or P x y reachable h k e = elim (Bool-cases (elem x reachable)) [
    | inl there ↦ h x there
    | inr away ↦
        let same : y ≡ x =
          ks.beq-eq y x (ground (arith, e, elem-append x reachable (y ∷ []), away)) in
        subst P same k
  ]

module _ {S E C T W : Type 0} ⦃ks : Key S⦄ where
  -- A row whose source is in the set has its destination there.
  abbrev pub Closed : List S → List (Transition S E C T W) → Type 0
  Closed reachable = All (λ t. elem t.from reachable ≡ true → elem t.to reachable ≡ true)

  -- The rows whose destination is not in the set.
  unfoldable misses : List (Transition S E C T W) → List S → ℕ
  misses [] reachable = 0
  misses (t ∷ ts) reachable =
      let rest = misses ts reachable in if elem t.to reachable then rest else suc rest

  misses-length :
      (ts : List (Transition S E C T W)) (reachable : List S) → misses ts reachable ≤ length ts
  unfolding misses
  misses-length [] reachable = omega arith
  misses-length (t ∷ ts) reachable = ground (arith, misses-length ts reachable)

  misses_mono :
      (ts : List (Transition S E C T W)) (less more : List S)
      → ((x : S) → elem x less ≡ true → elem x more ≡ true)
      → misses ts more ≤ misses ts less
  unfolding misses
  misses_mono [] less more h = omega arith
  misses_mono (t ∷ ts) less more h = ground (arith, h t.to, misses_mono ts less more h)

  grow_mono :
      (ts : List (Transition S E C T W)) (reachable : List S) (grew : Bool) (x : S)
      → elem x reachable ≡ true
      → elem x (grow ts reachable grew).0 ≡ true
  unfolding grow
  grow_mono [] reachable grew x h = h
  grow_mono (t ∷ ts) reachable grew x h =
      elim (Bool-cases (elem t.from reachable && not (elem t.to reachable))) [
        | inl new ↦
            rw new (grow_mono ts (reachable ++ t.to ∷ []) true x (elem-more x t.to reachable h))
        | inr old ↦ rw old (grow_mono ts reachable grew x h)
      ]

  grow-true :
      (ts : List (Transition S E C T W)) (reachable : List S) → (grow ts reachable true).1 ≡ true
  unfolding grow
  grow-true [] reachable = refl
  grow-true (t ∷ ts) reachable =
      ground (arith, grow-true ts (reachable ++ t.to ∷ []), grow-true ts reachable)

  -- A round that does not grow leaves a closed set; another reaches one more destination.
  grow-cases :
      (ts : List (Transition S E C T W)) (reachable : List S)
      → All (λ t. ks.beq t.to t.to ≡ true) ts
      → let (more, grew) = grow ts reachable false in
        ((grew ≡ false) × (more ≡ reachable) × Closed reachable ts)
        ⊎ ((grew ≡ true) × (misses ts more < misses ts reachable))
  unfolding grow misses
  grow-cases [] reachable k = inl (refl, refl, tt)
  grow-cases (t ∷ ts) reachable (self, k) =
      elim (Bool-cases (elem t.from reachable && not (elem t.to reachable))) [
        | inl new ↦
            let wider : List S = reachable ++ t.to ∷ [] in
            let more : List S = (grow ts wider true).0 in
            let there : elem t.to more ≡ true =
              grow_mono ts wider true t.to (elem-last t.to reachable self) in
            let fewer : misses ts more ≤ misses ts reachable =
              misses_mono ts reachable more
                (λ x h. grow_mono ts wider true x (elem-more x t.to reachable h)) in
            rw new (inr (grow-true ts wider, ground (arith, new, there, fewer)))
        | inr old ↦ elim (grow-cases ts reachable k) [
          | inl (stays, same, closed) ↦
              rw old (inl (stays, same, (λ h. ground (arith, old, h), closed)))
          | inr (grew, fewer) ↦
              let there = grow_mono ts reachable false t.to in
              rw old (inr (grew, ground (arith, fewer, there)))
        ]
      ]

  grow-least :
      (P : S → Type 0) (ts : List (Transition S E C T W)) (reachable : List S) (grew : Bool)
      → All (λ t. P t.from → P t.to) ts
      → ((x : S) → elem x reachable ≡ true → P x)
      → (x : S) → elem x (grow ts reachable grew).0 ≡ true
      → P x
  unfolding grow
  grow-least P [] reachable grew k h = h
  grow-least P (t ∷ ts) reachable grew (step, k) h =
      elim (Bool-cases (elem t.from reachable && not (elem t.to reachable))) [
        | inl new ↦
            let to : P t.to = step (h t.from (ground (arith, new))) in
            rw new (
              grow-least P ts (reachable ++ t.to ∷ []) true k
                (λ x e. last_or P x t.to reachable h to e))
        | inr old ↦ rw old (grow-least P ts reachable grew k h)
      ]

  -- What the rounds find: a closed set above this one, in every property of this one that the rows
  -- carry on.
  abbrev Finds : List (Transition S E C T W) → List S → Option (List S) → Type 1
  Finds ts reachable found =
      (more : List S) × (found ≡ some more)
      × Closed more ts
      × ((x : S) → elem x reachable ≡ true → elem x more ≡ true)
      × ((P : S → Type 0)
          → All (λ t. P t.from → P t.to) ts
          → ((x : S) → elem x reachable ≡ true → P x)
          → (x : S) → elem x more ≡ true
          → P x)

  rounds-Finds :
      (fuel : ℕ) (ts : List (Transition S E C T W)) (reachable : List S)
      → All (λ t. ks.beq t.to t.to ≡ true) ts
      → misses ts reachable < fuel
      → Finds ts reachable (reach_rounds fuel ts reachable)
  unfolding reach_rounds
  rounds-Finds zero ts reachable k few = absurd (omega (arith, few))
  rounds-Finds (suc fuel) ts reachable k few = elim (grow-cases ts reachable k) [
    | inl (stays, same, closed) ↦
        (reachable, ground (arith, stays, same), closed, λ x h. h, λ P step h. h)
    | inr (grew, fewer) ↦
        let wider = (grow ts reachable false).0 in
        let (more, found, closed, above, least) =
          rounds-Finds fuel ts wider k (omega (arith, few, fewer)) in
        (
          more,
          rw grew found,
          closed,
          λ x h. above x (grow_mono ts reachable false x h),
          λ P step h. least P step (grow-least P ts reachable false step h),
        )
  ]

  -- For rows whose destinations equal themselves, the rounds end before their fuel runs out, at a set
  -- of states with the initial one in it that the rows do not leave; and whatever holds of the initial
  -- state and is carried on by every row holds of all of it, so it is the least such set.
  pub reached-Closed :
      (initial : S) (ts : List (Transition S E C T W))
      → ks.beq initial initial ≡ true
      → All (λ t. ks.beq t.to t.to ≡ true) ts
      → (more : List S) × (reached initial ts ≡ some more)
        × Closed more ts
        × (elem initial more ≡ true)
        × ((P : S → Type 0)
            → All (λ t. P t.from → P t.to) ts
            → P initial
            → (x : S) → elem x more ≡ true
            → P x)
  unfolding elem
  reached-Closed initial ts self k =
      let (more, found, closed, above, least) =
        rounds-Finds (length ts + 1) ts (initial ∷ []) k
          (omega (arith, misses-length ts (initial ∷ []))) in
      (
        more,
        found,
        closed,
        above initial (ground (arith, self)),
        λ P step h. least P step (λ x e. subst P (ks.beq-eq initial x (ground (arith, e))) h),
      )
