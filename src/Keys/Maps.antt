-- ===== src/Keys/Maps.antt =====
-- Go maps as association lists. No operation of the program shows their order.
use statemachine.Prelude.{
  ◌≡◌, refl, Bool, false, ◌||◌, Option, none, some, List, [], ◌∷◌, ◌++◌, if◌then◌else◌, arith,
}
use statemachine.Keys.Defs.{Key}

abbrev pub Map : Type 0 → Type 0 → Type 0
Map K V = List (K × V)

module _ {K : Type 0} ⦃k : Key K⦄ where
  -- Whether a slice of keys holds this one.
  unfoldable pub elem : K → List K → Bool
  elem j [] = false
  elem j (i ∷ is) = k.beq i j || elem j is

  pub elem-append : (j : K) (is js : List K) → elem j (is ++ js) ≡ elem j is || elem j js
  unfolding elem
  elem-append j [] js = refl
  elem-append j (i ∷ is) js = ground (arith, elem-append j is js)

module _ {K V : Type 0} ⦃k : Key K⦄ where
  -- m[key], with the second result of Go's lookup as an Option.
  unfoldable pub lookup : K → Map K V → Option V
  lookup j [] = none
  lookup j ((i, v) ∷ m) = if k.beq i j then some v else lookup j m

  -- m[key] = value
  unfoldable pub insert : K → V → Map K V → Map K V
  insert j v [] = (j, v) ∷ []
  insert j v ((i, w) ∷ m) = if k.beq i j then (j, v) ∷ m else (i, w) ∷ insert j v m

  pub lookup-insert :
      (j i : K) (v : V) (m : Map K V)
      → lookup j (insert i v m) ≡ (if k.beq i j then some v else lookup j m)
  unfolding lookup insert
  lookup-insert j i v [] = refl
  lookup-insert j i v ((a, w) ∷ m) =
      ground (arith, k.beq-eq i j, k.beq-eq a i, k.beq-eq a j, lookup-insert j i v m)

abbrev pub or_empty : {V : Type 0} → Option (List V) → List V
or_empty none = []
or_empty (some vs) = vs

module _ {K V : Type 0} ⦃k : Key K⦄ where
  -- m[key] of a map to slices, nil for a missing key.
  unfoldable pub items : K → Map K (List V) → List V
  items j m = or_empty (lookup j m)

  -- m[key] = append(m[key], value)
  unfoldable pub append_at : K → V → Map K (List V) → Map K (List V)
  append_at j v m = insert j (items j m ++ v ∷ []) m

  pub items-append_at :
      (j i : K) (v : V) (m : Map K (List V))
      → items j (append_at i v m) ≡ (if k.beq i j then items j m ++ v ∷ [] else items j m)
  unfolding items append_at
  items-append_at j i v m =
      ground (arith, k.beq-eq i j, lookup-insert j i (or_empty (lookup i m) ++ v ∷ []) m)

  pub lookup-append_at :
      (j i : K) (v : V) (m : Map K (List V))
      → lookup j (append_at i v m) ≡ (if k.beq i j then some (items j m ++ v ∷ []) else lookup j m)
  unfolding items append_at
  lookup-append_at j i v m =
      ground (arith, k.beq-eq i j, lookup-insert j i (or_empty (lookup i m) ++ v ∷ []) m)
