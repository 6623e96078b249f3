-- ===== src/Statechart/Shape.antt =====
-- statechart/position.go: the compiled hierarchy as an array of nodes, common ancestors, and the
-- states that a transition exits and enters. An index is none where the source has -1; a result
-- none is the panic of an index out of range.
use statemachine.Prelude.{
  ℕ, zero, suc, ◌+◌, ◌-◌, ◌==◌, Bool, true, false, ◌||◌, Option, none, some, List, [], ◌∷◌,
  if◌then◌else◌, ltb, get_elem?,
}
use statemachine.Keys.Maps.{Map}

pub record Node (S : Type 0) : Type 0 where
  pub state : S
  pub parent : Option ℕ
  pub depth : ℕ
  pub enter : ℕ
  pub exit : ℕ
  pub destination : ℕ

pub record Shape (S : Type 0) : Type 0 where
  pub nodes : List (Node S)
  pub index : Map S ℕ
  pub reflexive : Bool

-- left == right
abbrev pub same_index : Option ℕ → Option ℕ → Bool
same_index none none = true
same_index none (some j) = false
same_index (some i) none = false
same_index (some i) (some j) = i == j

module _ {S : Type 0} where
  -- nodes[index]
  abbrev pub node_at : List (Node S) → Option ℕ → Option (Node S)
  node_at ns none = none
  node_at ns (some i) = get_elem? ns i

  -- The first two loops of leastCommonAncestor: up, while deeper than this.
  unfoldable pub rise : ℕ → List (Node S) → Option ℕ → ℕ → Option (Option ℕ)
  rise zero ns i depth = none
  rise (suc fuel) ns i depth = elim (node_at ns i) [
    | none ↦ none
    | some n ↦ let rest = rise fuel ns n.parent depth in if ltb depth n.depth then rest else some i
  ]

  -- The third loop: both up, until they meet.
  unfoldable pub meet : ℕ → List (Node S) → Option ℕ → Option ℕ → Option (Option ℕ)
  meet zero ns left right = none
  meet (suc fuel) ns left right =
      if same_index left right then some left else elim (node_at ns left) [
        | none ↦ none
        | some l ↦ elim (node_at ns right) [ none ↦ none | some r ↦ meet fuel ns l.parent r.parent ]
      ]

  -- leastCommonAncestor, with as much fuel as the depths ask for.
  unfoldable pub least_common_ancestor : List (Node S) → ℕ → ℕ → Option (Option ℕ)
  least_common_ancestor ns left right = elim (get_elem? ns left) [
    | none ↦ none
    | some l ↦ elim (get_elem? ns right) [
      | none ↦ none
      | some r ↦ elim (rise (suc l.depth) ns (some left) r.depth) [
        | none ↦ none
        | some i ↦ elim (node_at ns i) [
          | none ↦ none
          | some n ↦ elim (rise (suc r.depth) ns (some right) n.depth) [
            | none ↦ none
            | some j ↦ meet (suc (suc n.depth)) ns i j
          ]
        ]
      ]
    ]
  ]

  -- The loop that fills exits from an index on.
  unfoldable pub climb : ℕ → List (Node S) → Option ℕ → Option (List S)
  climb zero ns i = some []
  climb (suc count) ns i = elim (node_at ns i) [
    | none ↦ none
    | some n ↦ elim (climb count ns n.parent) [ none ↦ none | some xs ↦ some (n.state ∷ xs) ]
  ]

  -- The loop that fills entries from their end, before those that are filled already.
  unfoldable pub descend : ℕ → List (Node S) → Option ℕ → List S → Option (List S)
  descend zero ns i filled = some filled
  descend (suc count) ns i filled = elim (node_at ns i) [
    | none ↦ none
    | some n ↦ descend count ns n.parent (n.state ∷ filled)
  ]

  -- The depth of the stop plus one.
  abbrev pub level : List (Node S) → Option ℕ → Option ℕ
  level ns none = some 0
  level ns (some i) = elim (get_elem? ns i) [ none ↦ none | some n ↦ some (n.depth + 1) ]

  -- The part of paths behind the stop.
  unfoldable pub paths_below : List (Node S) → ℕ → ℕ → Option ℕ → Option (List S × List S)
  paths_below ns from to stop = elim (level ns stop) [
    | none ↦ none
    | some k ↦ elim (get_elem? ns from) [
      | none ↦ none
      | some f ↦ elim (get_elem? ns to) [
        | none ↦ none
        | some t ↦
            if (f.depth + 1) + (t.depth + 1) == k + k
            then some ([], [])
            else if ltb (f.depth + 1) k || ltb (t.depth + 1) k
            then none
            else elim (climb ((f.depth + 1) - k) ns (some from)) [
              | none ↦ none
              | some exits ↦ elim (descend ((t.depth + 1) - k) ns (some to) []) [
                | none ↦ none
                | some entries ↦ some (exits, entries)
              ]
            ]
      ]
    ]
  ]

  -- paths, on the indices of its source, target and destination.
  unfoldable pub paths_at : List (Node S) → ℕ → ℕ → ℕ → Bool → Option (List S × List S)
  paths_at ns from target to reentry =
      elim (if reentry
        then (elim (get_elem? ns target) [ none ↦ none | some n ↦ some n.parent ])
        else least_common_ancestor ns from target) [
          | none ↦ none
          | some stop ↦ paths_below ns from to stop
        ]
