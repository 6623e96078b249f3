-- ===== src/Statechart/Lineage.antt =====
-- The ancestors of a node, and what leastCommonAncestor and paths make of them.
use mathlib.Core.Option.{some_inj}
use statemachine.Prelude.{
  ℕ, zero, suc, ◌+◌, ◌==◌, ==_iff, ◌≤◌, ◌<◌, ◌≡◌, refl, sym, ap, subst, ◌∙◌, false, Option, none,
  some, List, [], ◌∷◌, ◌++◌, map, ltb, get_elem?, length, length-append, arith, Bool-cases, inl,
  inr,
}
use statemachine.Statechart.Shape.{Node, rise, meet}

module _ {S : Type 0} where
  -- The nodes from an index to its root, with their indices; the depth of each counts those above.
  pub data Lineage (ns : List (Node S)) : Option ℕ → List (ℕ × Node S) → Type 0 where
    root : Lineage ns none []
    up :
        {i : ℕ} {xs : List (ℕ × Node S)} (n : Node S)
        → get_elem? ns i ≡ some n
        → n.depth ≡ length xs
        → Lineage ns n.parent xs
        → Lineage ns (some i) ((i, n) ∷ xs)

  abbrev pub states : List (ℕ × Node S) → List S
  states = map (λ x. x.1.state)

  -- What is left of a lineage above some node of it.
  pub record Upper (ns : List (Node S)) (xs zs : List (ℕ × Node S)) (j : Option ℕ) : Type 0 where
    pub below : List (ℕ × Node S)
    pub split : xs ≡ below ++ zs
    pub lineage : Lineage ns j zs

  pub rise-Upper :
      (ns : List (Node S)) (d fuel : ℕ) (i : Option ℕ) (xs : List (ℕ × Node S))
      → Lineage ns i xs
      → 1 ≤ length xs
      → length xs ≤ fuel
      → (j : Option ℕ) × (zs : List (ℕ × Node S)) × (rise fuel ns i d ≡ some j)
        × Upper ns xs zs j
        × (d + 1 ≤ length xs → length zs ≡ d + 1)
        × (length xs ≤ d + 1 → length zs ≡ length xs)
  unfolding rise
  rise-Upper ns d fuel none xs root one enough = absurd (omega (arith, one))
  rise-Upper ns d zero _ _ (up n e k l) one enough = absurd (omega (arith, enough))
  rise-Upper ns d (suc fuel) _ _ (up {i} {xs} n e k l) one enough =
      elim (Bool-cases (ltb d n.depth)) [
        | inl deeper ↦
            let more : d + 1 ≤ length xs = ground (arith, k, deeper) in
            let (j, zs, r, u, a, b) =
              rise-Upper ns d fuel n.parent xs l (omega (arith, more)) (omega (arith, enough)) in
            (
              j,
              zs,
              rw (e, deeper, rise) r,
              record {
                below = (i, n) ∷ u.below;
                split = ap (λ x. (i, n) ∷ x) u.split;
                lineage = u.lineage;
              },
              λ h. a more,
              λ h. absurd (omega (arith, h, more)),
            )
        | inr flat ↦
            let most : length xs ≤ d = ground (arith, k, flat) in
            (
              some i,
              (i, n) ∷ xs,
              rw (e, flat, rise) refl,
              record { below = []; split = refl; lineage = up n e k l },
              λ h. omega (arith, most, h),
              λ h. refl,
            )
      ]

  Lineage-unique :
      (ns : List (Node S)) (i : Option ℕ) (xs ys : List (ℕ × Node S))
      → Lineage ns i xs
      → Lineage ns i ys
      → xs ≡ ys
  Lineage-unique ns _ _ _ root root = refl
  Lineage-unique ns _ _ _ (up {i} {xs} n e k l) (up {xs = ys} m f o r) =
      let q : n ≡ m = some_inj.0 (sym e ∙ f) in
      let same =
        Lineage-unique ns n.parent xs ys l
          (subst (λ x. Lineage ns x ys) (ap (λ x. x.parent) (sym q)) r) in
      rw (q, same) refl

  -- The longest common end of two lineages of the same length.
  abbrev pub Largest : List (ℕ × Node S) → List (ℕ × Node S) → List (ℕ × Node S) → Type 0
  Largest xs ys zs =
      (ps qs ws : List (ℕ × Node S)) → xs ≡ ps ++ ws → ys ≡ qs ++ ws → length ws ≤ length zs

  Largest-whole : (xs ys : List (ℕ × Node S)) → Largest xs ys xs
  Largest-whole xs ys ps qs ws a b = omega (arith, ap length a, length-append ps ws)

  Largest-step :
      (i j : ℕ) (n m : Node S) (xs ys zs : List (ℕ × Node S))
      → (i == j) ≡ false
      → length xs ≡ length ys
      → Largest xs ys zs
      → Largest ((i, n) ∷ xs) ((j, m) ∷ ys) zs
  Largest-step i j n m xs ys zs differ l h [] [] ws a b = ground (arith, a, b)
  Largest-step i j n m xs ys zs differ l h [] (q ∷ qs) ws a b =
      absurd (omega (arith, l, ap length a, ap length b, length-append qs ws))
  Largest-step i j n m xs ys zs differ l h (p ∷ ps) [] ws a b =
      absurd (omega (arith, l, ap length a, ap length b, length-append ps ws))
  Largest-step i j n m xs ys zs differ l h (p ∷ ps) (q ∷ qs) ws a b =
      h ps qs ws (ground (arith, a)) (ground (arith, b))

  pub meet-Upper :
      (ns : List (Node S)) (fuel : ℕ) (i j : Option ℕ) (xs ys : List (ℕ × Node S))
      → Lineage ns i xs
      → Lineage ns j ys
      → length xs ≡ length ys
      → length xs < fuel
      → (k : Option ℕ) × (zs : List (ℕ × Node S)) × (meet fuel ns i j ≡ some k)
        × Upper ns xs zs k
        × Upper ns ys zs k
        × Largest xs ys zs
  unfolding meet
  meet-Upper ns zero i j xs ys l r same enough = absurd (omega (arith, enough))
  meet-Upper ns (suc fuel) _ _ _ _ root root same enough =
      let here : Upper ns [] [] none = record { below = []; split = refl; lineage = root } in
      (none, [], refl, here, here, Largest-whole [] [])
  meet-Upper ns (suc fuel) _ _ _ _ root (up n e k l) same enough = absurd (omega (arith, same))
  meet-Upper ns (suc fuel) _ _ _ _ (up n e k l) root same enough = absurd (omega (arith, same))
  meet-Upper ns (suc fuel) _ _ _ _ (up {i} {xs} n e k l) (up {i = j} {xs = ys} m f o r) same
        enough =
      elim (Bool-cases (i == j)) [
        | inl at ↦
            let one = Lineage-unique ns (some i) ((i, n) ∷ xs) ((j, m) ∷ ys) (up n e k l) (
              subst (λ x. Lineage ns (some x) ((j, m) ∷ ys)) (sym ((==_iff i j).0 at))
                (up m f o r)) in
            (
              some i,
              (i, n) ∷ xs,
              rw at refl,
              record { below = []; split = refl; lineage = up n e k l },
              record { below = []; split = sym one; lineage = up n e k l },
              Largest-whole ((i, n) ∷ xs) ((j, m) ∷ ys),
            )
        | inr differ ↦
            let level : length xs ≡ length ys = omega (arith, same) in
            let (t, zs, w, a, b, c) =
              meet-Upper ns fuel n.parent m.parent xs ys l r level (omega (arith, enough)) in
            (
              t,
              zs,
              rw (differ, e, f) w,
              record {
                below = (i, n) ∷ a.below;
                split = ap (λ x. (i, n) ∷ x) a.split;
                lineage = a.lineage;
              },
              record {
                below = (j, m) ∷ b.below;
                split = ap (λ x. (j, m) ∷ x) b.split;
                lineage = b.lineage;
              },
              Largest-step i j n m xs ys zs differ level c,
            )
      ]
