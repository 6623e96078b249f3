-- ===== src/Persist/Memory.antt =====
-- persist/memory.go: the critical sections of a MemoryStore. `context_error` is what the context's
-- Err says in a world.
use statemachine.Prelude.{
  ℕ, ◌+◌, ◌%◌, ◌==◌, not, Option, none, some, List, [], ◌∷◌, if◌then◌else◌, ◌≡◌, arith,
}
use statemachine.Errors.{
  Error, leaf, tree, of_list, invalid_key, not_found, conflict, Outcome, returned, unwound, Result,
  ok, err, Unwind,
}
use statemachine.Keys.Defs.{Key, value}
use statemachine.Keys.Maps.{Map, lookup, insert, lookup-insert}
use statemachine.Observer.Defs.{u64}

pub record Snapshot (S : Type 0) : Type 0 where
  pub state : S
  pub revision : ℕ

-- A ConflictError names both revisions and unwraps to ErrConflict.
pub data UpdateError : Type 0 where
  plain : Error → UpdateError
  lost : ℕ → ℕ → UpdateError

-- ConflictError.Unwrap
abbrev pub unwrap : UpdateError → Error
unwrap (plain e) = e
unwrap (lost expected actual) = tree (of_list (leaf conflict ∷ []))

module _ {K S : Type 0} ⦃kk : Key K⦄ where
  -- NewMemoryStoreChecked
  unfoldable pub new_checked : List (K × S) → Result Error (Map K (Snapshot S))
  new_checked [] = ok []
  new_checked ((k, s) ∷ initial) = elim (new_checked initial) [
    | err e ↦ err e
    | ok entries ↦
        if not (value k)
        then err (leaf invalid_key)
        else ok (insert k (record { state = s; revision = 0 }) entries)
  ]

  -- Load, with what the context's Err says at its start.
  unfoldable pub load : Option Error → K → Map K (Snapshot S) → Result Error (Snapshot S)
  load canceled k entries = elim canceled [
    | some e ↦ err e
    | none ↦
        if not (value k)
        then err (leaf invalid_key)
        else elim (lookup k entries) [ none ↦ err (leaf not_found) | some s ↦ ok s ]
  ]

  -- The last section of Update: the conditional commit under the lock. A missing key reads as the
  -- zero Snapshot.
  unfoldable pub commit :
      S → K → Snapshot S → S → Map K (Snapshot S) → Map K (Snapshot S) × Result (S × UpdateError) S
  commit zero_state k before next entries =
      let zero_snapshot : Snapshot S = record { state = zero_state; revision = 0 } in
      let current : Snapshot S = elim (lookup k entries) [ none ↦ zero_snapshot | some s ↦ s ] in
      if not (current.revision == before.revision)
      then (entries, err (current.state, lost before.revision current.revision))
      else (
        insert k (record { state = next; revision = (before.revision + 1) % u64 }) entries,
        ok next,
      )

  module _ {C W : Type 0} (context_error : C → W → Option Error) (zero_state : S) where
    -- The part of Update behind its callback's answer.
    unfoldable pub conclude_update :
        K
        → Snapshot S
        → S × Option Error
        → Option Error
        → Map K (Snapshot S)
        → Map K (Snapshot S) × Result (S × UpdateError) S
    conclude_update k before (next, some e) canceled entries =
        (entries, err (before.state, plain e))
    conclude_update k before (next, none) (some e) entries = (entries, err (before.state, plain e))
    conclude_update k before (next, none) none entries = commit zero_state k before next entries

    -- One Update that no other overlaps. The callback may unwind through it.
    unfoldable pub update :
        C
        → K
        → (C → S → K × ℕ → W → Outcome (S × Option Error) × W)
        → Map K (Snapshot S)
        → W
        → Outcome (Result (S × UpdateError) S) × Map K (Snapshot S) × W
    update c k step entries w = elim (load (context_error c w) k entries) [
      | err e ↦ (returned (err (zero_state, plain e)), entries, w)
      | ok before ↦
          let (answer, w') = step c before.state (k, before.revision) w in
          elim answer [
            | unwound u ↦ (unwound u, entries, w')
            | returned r ↦
                let (entries', result) = conclude_update k before r (context_error c w') entries in
                (returned result, entries', w')
          ]
    ]

    -- One Update alone, for a valid context before and after: it commits what the callback returns,
    -- under the next revision, exactly where the callback has no error, and else changes nothing.
    -- Reading any key afterwards shows that, and no other key is touched.
    pub update_alone :
        (c : C) (k : K) (step : C → S → K × ℕ → W → Outcome (S × Option Error) × W)
        (entries : Map K (Snapshot S)) (w w' : W) (before : Snapshot S)
        (answer : Outcome (S × Option Error))
        → load (context_error c w) k entries ≡ ok before
        → step c before.state (k, before.revision) w ≡ (answer, w')
        → context_error c w' ≡ none
        → let (result, entries', w'') = update c k step entries w in
          (w'' ≡ w')
          × ((next : S)
              → answer ≡ returned (next, none)
              → (result ≡ returned (ok next))
                × ((j : K)
                    → lookup j entries' ≡ (
                        if kk.beq k j
                        then some (record { state = next; revision = (before.revision + 1) % u64 })
                        else lookup j entries)))
          × ((next : S) (e : Error)
              → answer ≡ returned (next, some e)
              → (result ≡ returned (err (before.state, plain e))) × (entries' ≡ entries))
          × ((u : Unwind) → answer ≡ unwound u → (result ≡ unwound u) × (entries' ≡ entries))
    unfolding update conclude_update commit load
    update_alone c k step entries w w' before answer l s x = (
      ground arith,
      λ next a. (
        ground arith,
        λ j. ground (
          arith,
          lookup-insert j k (record { state = next; revision = (before.revision + 1) % u64 })
              entries,
        ),
      ),
      λ next e a. ground arith,
      λ u a. ground arith,
    )
