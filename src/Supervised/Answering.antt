-- ===== src/Supervised/Answering.antt =====
-- supervised/definition.go: the rows and refusals that Compile gathers are declared ones.
use statemachine.Prelude.{
  ℕ, ◌+◌, ◌≡◌, inl, inr, Bool, true, ◌||◌, List, [], ◌∷◌, ◌++◌, map, Bool-cases, Option-cases,
  arith,
}
use statemachine.Keys.Defs.{Key, both_key}
use statemachine.Keys.Maps.{Map, lookup, insert, elem, elem-append, lookup-append_at}
use statemachine.Supervised.Machine.{State, Transition, Row}
use statemachine.Supervised.Snapshots.{is_some}
use statemachine.Supervised.Declarations.{gather_refusals, gather_all_refusals}
use statemachine.Supervised.DeclaredRows.{
  place_of, row_of, mark_id, mark_unguarded, add_declared, gather_rows,
}

module _ {S E C T W : Type 0} where
  -- From and Event of the declared rows.
  abbrev pub places : List (Transition S E C T W) → List (S × E)
  places = map (λ t. (t.from, t.event))

-- What the declared states refuse.
abbrev pub refusals : {S E : Type 0} → List (State S E) → List (S × E)
refusals [] = []
refusals (s ∷ ss) = map (λ e. (s.name, e)) s.refuse ++ refusals ss

module _ {S E : Type 0} ⦃ks : Key S⦄ ⦃ke : Key E⦄ (k : S × E) where
  gather_refusals-elem :
      (i : ℕ) (name : S) (at : Map E ℕ) (j : ℕ) (es : List E) (seen : Map E ℕ)
      (refused : List (S × E))
      → elem k (gather_refusals i name at j es seen refused).1 ≡ true
      → (elem k refused || elem k (map (λ e. (name, e)) es)) ≡ true
  unfolding gather_refusals elem
  gather_refusals-elem i name at j [] seen refused h = ground (arith, h)
  gather_refusals-elem i name at j (e ∷ es) seen refused h = elim (Option-cases (lookup e seen)) [
    | inr (n, before) ↦
        let rest =
          gather_refusals-elem i name at (j + 1) es seen refused (ground (arith, h, before)) in
        ground (arith, rest)
    | inl new ↦ elim (Option-cases (lookup e at)) [
      | inl unknown ↦
          let rest =
            gather_refusals-elem i name at (j + 1) es (insert e j seen) refused
              (ground (arith, h, new, unknown)) in
          ground (arith, rest)
      | inr (n, known) ↦
          let rest =
            gather_refusals-elem i name at (j + 1) es (insert e j seen) (refused ++ (name, e) ∷ [])
              (ground (arith, h, new, known)) in
          ground (arith, rest, elem-append k refused ((name, e) ∷ []))
    ]
  ]

  pub gather_all_refusals-elem :
      (i : ℕ) (ss : List (State S E)) (at : Map E ℕ) (refused : List (S × E))
      → elem k (gather_all_refusals i ss at refused).1 ≡ true
      → (elem k refused || elem k (refusals ss)) ≡ true
  unfolding gather_all_refusals elem
  gather_all_refusals-elem i [] at refused h = ground (arith, h)
  gather_all_refusals-elem i (s ∷ ss) at refused h =
      let here = (gather_refusals i s.name at 0 s.refuse [] refused).1 in
      let own : List (S × E) = map (λ e. (s.name, e)) s.refuse in
      let rest = gather_all_refusals-elem (i + 1) ss at here h in
      elim (Bool-cases (elem k here)) [
        | inl there ↦
            let mine = gather_refusals-elem i s.name at 0 s.refuse [] refused there in
            ground (arith, mine, elem-append k own (refusals ss))
        | inr away ↦ ground (arith, rest, away, elem-append k own (refusals ss))
      ]

module _ {S E C T W : Type 0} ⦃ks : Key S⦄ ⦃ke : Key E⦄ (k : S × E) where
  pub gather_rows-elem :
      (i : ℕ) (ts : List (Transition S E C T W)) (states : Map S ℕ) (known : Map S Bool)
      (events : Map E ℕ) (refused : List (S × E)) (ids : Map ℕ ℕ) (unguarded : Map (S × E) ℕ)
      (rows : Map (S × E) (List (Row S E C T W)))
      → is_some (lookup k (gather_rows i ts states known events refused ids unguarded rows).1)
        ≡ true
      → (is_some (lookup k rows) || elem k (places ts)) ≡ true
  unfolding gather_rows elem
  gather_rows-elem i [] states known events refused ids unguarded rows h = ground (arith, h)
  gather_rows-elem i (t ∷ ts) states known events refused ids unguarded rows h =
      let rest =
        gather_rows-elem (i + 1) ts states known events refused (mark_id i t ids)
          (mark_unguarded i t unguarded) (add_declared states events t rows) h in
      ground (arith, rest, lookup-append_at k (place_of t) (row_of t) rows)
