-- ===== src/Statechart/Ancestor.antt =====
-- statechart/position.go: leastCommonAncestor finds the lowest node above both of its arguments.
use statemachine.Prelude.{
  get_elem?, ℕ, suc, ◌+◌, ◌≤◌, ◌≡◌, sym, ap, ◌∙◌, ◌⊎◌, inl, inr, Option, none, some, List, [], ◌∷◌,
  ◌++◌, append_assoc, leb, Bool-cases, length, length-append, arith,
}
use statemachine.Statechart.Shape.{Node, node_at, rise, meet, least_common_ancestor}
use statemachine.Statechart.Lineage.{Lineage, root, up, Upper, rise-Upper, Largest, meet-Upper}

shorter_end :
    {A : Type 0} (a xs p ws : List A)
    → a ++ xs ≡ p ++ ws
    → length ws ≤ length xs
    → (c : List A) × (xs ≡ c ++ ws)
shorter_end [] xs p ws e h = (p, e)
shorter_end (x ∷ a) xs [] ws e h = absurd (omega (arith, ap length e, length-append a xs, h))
shorter_end (x ∷ a) xs (y ∷ p) ws e h = shorter_end a xs p ws (ground (arith, e)) h

-- The smaller of two lengths.
smaller :
    (p q r : ℕ)
    → (q ≤ p → r ≡ q)
    → (p ≤ q → r ≡ p)
    → 1 ≤ p
    → 1 ≤ q
    → (r ≤ q) × ((p ≤ r) ⊎ (q ≤ r)) × (1 ≤ r)
smaller p q r a b h k = elim (Bool-cases (leb p q)) [
  | inl le ↦
      let e : r ≡ p = b (ground (arith, le)) in
      (ground (arith, le, e), inl (omega (arith, e)), omega (arith, e, h))
  | inr gt ↦
      let e : r ≡ q = a (ground (arith, gt)) in
      (omega (arith, e), inr (omega (arith, e)), omega (arith, e, k))
]

module _ {S : Type 0} where
  pub Lineage-node :
      (ns : List (Node S)) (i : Option ℕ) (xs : List (ℕ × Node S))
      → Lineage ns i xs
      → 1 ≤ length xs
      → (n : Node S) × (node_at ns i ≡ some n) × (n.depth + 1 ≡ length xs)
  Lineage-node ns none xs root one = absurd (omega (arith, one))
  Lineage-node ns _ _ (up n e k l) one = (n, e, omega (arith, k))

  Largest-Upper :
      {ns : List (Node S)} {xs ys xs' ys' : List (ℕ × Node S)} {i j : Option ℕ}
      (zs : List (ℕ × Node S))
      → Upper ns xs xs' i
      → Upper ns ys ys' j
      → (length xs ≤ length xs') ⊎ (length ys ≤ length xs')
      → length xs' ≡ length ys'
      → Largest xs' ys' zs
      → Largest xs ys zs
  Largest-Upper {xs} {ys} {xs'} {ys'} zs u v whole even h ps qs ws a b =
      let fits : length ws ≤ length xs' =
        omega (
          arith,
          whole,
          even,
          ap length a,
          ap length b,
          length-append ps ws,
          length-append qs ws,
        ) in
      let (c, e) = shorter_end u.below xs' ps ws (sym u.split ∙ a) fits in
      let (d, f) = shorter_end v.below ys' qs ws (sym v.split ∙ b) (omega (arith, fits, even)) in
      h c d ws e f

  Upper-trans :
      {ns : List (Node S)} {xs ys zs : List (ℕ × Node S)} {i j : Option ℕ}
      → Upper ns xs ys i
      → Upper ns ys zs j
      → Upper ns xs zs j
  Upper-trans {zs} u v = record {
    below = u.below ++ v.below;
    split = u.split ∙ ap (λ x. u.below ++ x) v.split ∙ sym (append_assoc u.below v.below zs);
    lineage = v.lineage;
  }

  -- The two loops behind the first one, from an index no deeper than the right one.
  rise-meet :
      (ns : List (Node S)) (right : ℕ) (m t : Node S) (i : Option ℕ) (xs ys : List (ℕ × Node S))
      → Lineage ns i xs
      → Lineage ns (some right) ys
      → m.depth + 1 ≡ length ys
      → t.depth + 1 ≡ length xs
      → length xs ≤ length ys
      → (j : Option ℕ) × (k : Option ℕ) × (ys' : List (ℕ × Node S)) × (zs : List (ℕ × Node S))
        × (rise (suc m.depth) ns (some right) t.depth ≡ some j)
        × (meet (suc (suc t.depth)) ns i j ≡ some k)
        × Upper ns ys ys' j
        × (length xs ≡ length ys')
        × Upper ns xs zs k
        × Upper ns ys' zs k
        × Largest xs ys' zs
  rise-meet ns right m t i xs ys l r o s most =
      let (j, ys', p, v, a, b) =
        rise-Upper ns t.depth (suc m.depth) (some right) ys r (omega (arith, o))
          (omega (arith, o)) in
      let even : length xs ≡ length ys' = sym (a (omega (arith, s, most)) ∙ s) in
      let (k, zs, w, c, d, g) =
        meet-Upper ns (suc (suc t.depth)) i j xs ys' l v.lineage even (omega (arith, s)) in
      (j, k, ys', zs, p, w, v, even, c, d, g)

  -- What the first loop leaves of the left lineage, and the rest of the search from there.
  joined :
      (ns : List (Node S)) (left right : ℕ) (n m : Node S) (xs ys xs' : List (ℕ × Node S))
      (i : Option ℕ)
      → get_elem? ns left ≡ some n
      → get_elem? ns right ≡ some m
      → m.depth + 1 ≡ length ys
      → Lineage ns (some right) ys
      → rise (suc n.depth) ns (some left) m.depth ≡ some i
      → Upper ns xs xs' i
      → length xs' ≤ length ys
      → (length xs ≤ length xs') ⊎ (length ys ≤ length xs')
      → 1 ≤ length xs'
      → (k : Option ℕ) × (zs : List (ℕ × Node S)) × (least_common_ancestor ns left right ≡ some k)
        × Upper ns xs zs k
        × Upper ns ys zs k
        × Largest xs ys zs
  unfolding least_common_ancestor
  joined ns left right n m xs ys xs' i e f o r p u most whole one =
      let (t, q, s) = Lineage-node ns i xs' u.lineage one in
      let (j, k, ys', zs, p', w, v, even, c, d, g) =
        rise-meet ns right m t i xs' ys u.lineage r o s most in
      (
        k,
        zs,
        rw (e, f, p, q, p', least_common_ancestor) w,
        Upper-trans u c,
        Upper-trans v d,
        Largest-Upper zs u v whole even g,
      )

  -- In a hierarchy whose depths count the ancestors, leastCommonAncestor does not run out of the
  -- array and answers with the lowest node that both of its arguments have above or at them, or
  -- with none where they have different roots: what both lineages end in, in full.
  pub least_common_ancestor-Largest :
      (ns : List (Node S)) (left right : ℕ) (xs ys : List (ℕ × Node S))
      → Lineage ns (some left) xs
      → Lineage ns (some right) ys
      → (k : Option ℕ) × (zs : List (ℕ × Node S)) × (least_common_ancestor ns left right ≡ some k)
        × Upper ns xs zs k
        × Upper ns ys zs k
        × Largest xs ys zs
  least_common_ancestor-Largest ns left right _ _ (up {xs} n e k l) (up {xs = ys} m f o r) =
      let lower = up n e k l in
      let (i, xs', p, u, a, b) =
        rise-Upper ns m.depth (suc n.depth) (some left) ((left, n) ∷ xs) lower (omega arith)
          (omega (arith, k)) in
      let (most, whole, one) =
        smaller (suc (length xs)) (suc (length ys)) (length xs')
          (λ h. a (omega (arith, h, o)) ∙ omega (arith, o)) (λ h. b (omega (arith, h, o)))
          (omega arith) (omega arith) in
      joined ns left right n m ((left, n) ∷ xs) ((right, m) ∷ ys) xs' i e f (omega (arith, o))
        (up m f o r) p u most whole one
