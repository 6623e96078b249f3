-- ===== src/Statechart/Paths.antt =====
-- statechart/position.go: the states that a transition exits and enters.
use statemachine.Prelude.{
  ℕ, ◌+◌, ◌-◌, ◌==◌, ◌||◌, ◌≡◌, refl, sym, ap, subst, ◌∙◌, inl, inr, true, false, Option, none,
  some, List, [], ◌∷◌, ◌++◌, append_assoc, get_elem?, ltb, Bool-cases, length, length-append, arith,
}
use statemachine.Statechart.Shape.{Node, climb, descend, level, paths_below, paths_at}
use statemachine.Statechart.Lineage.{Lineage, root, up, states, Largest}
use statemachine.Statechart.Ancestor.{least_common_ancestor-Largest}

module _ {S : Type 0} where
  -- The states of some nodes, the last first.
  abbrev pub reversed : List (ℕ × Node S) → List S → List S
  reversed [] done = done
  reversed (x ∷ xs) done = reversed xs (x.1.state ∷ done)

  climb-states :
      (ns : List (Node S)) (ps : List (ℕ × Node S)) (i : Option ℕ) (zs : List (ℕ × Node S))
      → Lineage ns i (ps ++ zs)
      → climb (length ps) ns i ≡ some (states ps)
  unfolding climb
  climb-states ns [] i zs l = refl
  climb-states ns (p ∷ ps) _ zs (up n e k l) = rw (e, climb-states ns ps n.parent zs l, climb) refl

  descend-reversed :
      (ns : List (Node S)) (ps : List (ℕ × Node S)) (i : Option ℕ) (zs : List (ℕ × Node S))
      (done : List S)
      → Lineage ns i (ps ++ zs)
      → descend (length ps) ns i done ≡ some (reversed ps done)
  unfolding descend
  descend-reversed ns [] i zs done l = refl
  descend-reversed ns (p ∷ ps) _ zs done (up n e k l) =
      rw (e, descend) (descend-reversed ns ps n.parent zs (n.state ∷ done) l)

  level-length :
      (ns : List (Node S)) (i : Option ℕ) (zs : List (ℕ × Node S))
      → Lineage ns i zs
      → level ns i ≡ some (length zs)
  level-length ns none _ root = refl
  level-length ns _ _ (up n e k l) = ground (arith, e, k)

  node :
      (ns : List (Node S)) (i : ℕ) (xs : List (ℕ × Node S))
      → Lineage ns (some i) xs
      → (n : Node S) × (get_elem? ns i ≡ some n) × (n.depth + 1 ≡ length xs)
  node ns i _ (up n e k l) = (n, e, omega (arith, k))

  empty : (xs : List (ℕ × Node S)) → length xs ≡ 0 → xs ≡ []
  empty [] e = refl
  empty (x ∷ xs) e = absurd (omega (arith, e))

  paths_below-states :
      (ns : List (Node S)) (from to : ℕ) (stop : Option ℕ) (ps qs zs : List (ℕ × Node S))
      → Lineage ns (some from) (ps ++ zs)
      → Lineage ns (some to) (qs ++ zs)
      → Lineage ns stop zs
      → paths_below ns from to stop ≡ some (states ps, reversed qs [])
  unfolding paths_below
  paths_below-states ns from to stop ps qs zs l r s =
      let (n, e, k) = node ns from (ps ++ zs) l in
      let (m, f, o) = node ns to (qs ++ zs) r in
      let h : n.depth + 1 ≡ length ps + length zs = k ∙ length-append ps zs in
      let g : m.depth + 1 ≡ length qs + length zs = o ∙ length-append qs zs in
      let t = level-length ns stop zs s in
      elim (Bool-cases ((n.depth + 1) + (m.depth + 1) == length zs + length zs)) [
        | inl none_left ↦
            let a = empty ps (ground (arith, h, g, none_left)) in
            let b = empty qs (ground (arith, h, g, none_left)) in
            rw (t, e, f, none_left, paths_below) (rw (a, b) refl)
        | inr some_left ↦
            let outside : (ltb (n.depth + 1) (length zs) || ltb (m.depth + 1) (length zs)) ≡ false =
              ground (arith, h, g) in
            let a : (n.depth + 1) - length zs ≡ length ps = omega (arith, h) in
            let b : (m.depth + 1) - length zs ≡ length qs = omega (arith, g) in
            rw
              (
                t,
                e,
                f,
                some_left,
                outside,
                a,
                climb-states ns ps (some from) zs l,
                b,
                descend-reversed ns qs (some to) zs [] r,
                paths_below,
              )
              refl
      ]

  -- The states that an External transition exits and enters, with lineages of its source, its target
  -- and its destination, which stands at or below the target: no index is out of range; the exits are
  -- the source's lineage, from the source up, and the entries the destination's, from above down,
  -- without the nodes at or above the lowest one that the source's and the target's have in common.
  pub paths_at-external :
      (ns : List (Node S)) (from target to : ℕ) (xs ts ds : List (ℕ × Node S))
      → Lineage ns (some from) xs
      → Lineage ns (some target) ts
      → Lineage ns (some to) (ds ++ ts)
      → (ps : List (ℕ × Node S)) × (qs : List (ℕ × Node S)) × (zs : List (ℕ × Node S)) × (paths_at
            ns from target to false
          ≡ some (states ps, reversed (ds ++ qs) []))
        × (xs ≡ ps ++ zs)
        × (ts ≡ qs ++ zs)
        × Largest xs ts zs
  unfolding paths_at
  paths_at-external ns from target to xs ts ds l t d =
      let (k, zs, e, u, v, g) = least_common_ancestor-Largest ns from target xs ts l t in
      let lower = subst (λ x. Lineage ns (some from) x) u.split l in
      let upper =
        subst (λ x. Lineage ns (some to) x)
          (ap (λ x. ds ++ x) v.split ∙ sym (append_assoc ds v.below zs)) d in
      (
        u.below,
        v.below,
        zs,
        rw (e, paths_at)
            (paths_below-states ns from to k u.below (ds ++ v.below) zs lower upper u.lineage),
        u.split,
        v.split,
        g,
      )

  parent_of :
      (ns : List (Node S)) (i : ℕ) (ts : List (ℕ × Node S))
      → Lineage ns (some i) ts
      → (n : Node S) × (us : List (ℕ × Node S)) × (get_elem? ns i ≡ some n)
        × (ts ≡ (i, n) ∷ us)
        × Lineage ns n.parent us
  parent_of ns i _ (up {xs = us} n e k l) = (n, us, e, refl, l)

  -- The same for a Reentry transition, whose target stands at or above both its source and its
  -- destination: the target itself is the last state to be exited and the first to be entered, and
  -- nothing above it is touched.
  pub paths_at-reentry :
      (ns : List (Node S)) (from target to : ℕ) (cs ds ts : List (ℕ × Node S))
      → Lineage ns (some from) (cs ++ ts)
      → Lineage ns (some to) (ds ++ ts)
      → Lineage ns (some target) ts
      → (n : Node S) × (us : List (ℕ × Node S)) × (ts ≡ (target, n) ∷ us)
        × (paths_at ns from target to true
            ≡ some (states (cs ++ (target, n) ∷ []), reversed (ds ++ (target, n) ∷ []) []))
  unfolding paths_at
  paths_at-reentry ns from target to cs ds ts l d t =
      let (n, us, e, f, above) = parent_of ns target ts t in
      let longer = λ (bs : List (ℕ × Node S)).
        ap (λ x. bs ++ x) f ∙ sym (append_assoc bs ((target, n) ∷ []) us) in
      let lower = subst (λ x. Lineage ns (some from) x) (longer cs) l in
      let upper = subst (λ x. Lineage ns (some to) x) (longer ds) d in
      (
        n,
        us,
        f,
        rw (e, paths_at)
            (paths_below-states ns from to n.parent (cs ++ (target, n) ∷ [])
              (ds ++ (target, n) ∷ []) us lower upper above),
      )
