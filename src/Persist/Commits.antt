-- ===== src/Persist/Commits.antt =====
-- Many updates of one MemoryStore, as interleavings of their loads and conditional commits.
use statemachine.Prelude.{
  ℕ, ◌+◌, ◌%◌, ◌≤◌, ◌<◌, ◌==◌, ◌≡◌, refl, subst, Option, some, List, [], ◌∷◌, ◌++◌, arith, All,
  All-remove, All-map, Bool-cases, inl, inr, Option-cases, ◌⊎◌,
}
use statemachine.Errors.{Error, Result, ok, err}
use statemachine.Keys.Defs.{Key}
use statemachine.Keys.Maps.{Map, lookup, insert, lookup-insert}
use statemachine.Observer.Defs.{u64}
use statemachine.Persist.Memory.{Snapshot, lost, load, commit}

-- The entries, the snapshots that updates in progress have loaded, and how many commits there were.
pub record Store (K S : Type 0) : Type 0 where
  pub entries : Map K (Snapshot S)
  pub loaded : List (K × Snapshot S)
  pub commits : ℕ

abbrev pub succeeded : {X A : Type 0} → Result X A → ℕ
succeeded (ok a) = 1
succeeded (err x) = 0

module _ {K S : Type 0} ⦃kk : Key K⦄ (zero_state : S) where
  pub data Step (v : Store K S) : Store K S → Type 0 where
    loads :
        (canceled : Option Error) (k : K) (s : Snapshot S)
        → load canceled k v.entries ≡ ok s
        → Step v (record v { loaded = (k, s) ∷ v.loaded })
    commits :
        (before after : List (K × Snapshot S)) (k : K) (s : Snapshot S) (next : S)
        → v.loaded ≡ before ++ (k, s) ∷ after
        → Step v (record {
          entries = (commit zero_state k s next v.entries).0;
          loaded = before ++ after;
          commits = v.commits + succeeded (commit zero_state k s next v.entries).1;
        })
    gives_up :
        (before after : List (K × Snapshot S)) (k : K) (s : Snapshot S)
        → v.loaded ≡ before ++ (k, s) ∷ after
        → Step v (record v { loaded = before ++ after })

  pub data Reach (v : Store K S) : Store K S → Type 0 where
    here : Reach v v
    step_after : {u t : Store K S} → Reach v u → Step u t → Reach v t

  -- A loaded snapshot is the entry of its key, or has an older revision.
  abbrev pub Fresh : Map K (Snapshot S) → K × Snapshot S → Type 0
  Fresh entries (k, b) =
      (s : Snapshot S) × (lookup k entries ≡ some s)
      × (b.revision ≤ s.revision)
      × (b.revision ≡ s.revision → s ≡ b)

  abbrev pub Counted : Map K (Snapshot S) → ℕ → Type 0
  Counted entries n = (k : K) (s : Snapshot S) → lookup k entries ≡ some s → s.revision ≤ n

  pub record Safe (v : Store K S) : Type 0 where
    pub counted : Counted v.entries v.commits
    pub fresh : v.commits < u64 → All (Fresh v.entries) v.loaded

  commit_cases :
      (k : K) (b : Snapshot S) (next : S) (entries : Map K (Snapshot S))
      → Fresh entries (k, b)
      → ((commit zero_state k b next entries).0 ≡ entries)
          × (succeeded (commit zero_state k b next entries).1 ≡ 0)
        ⊎ (lookup k entries ≡ some b)
          × ((commit zero_state k b next entries).0
              ≡ insert k (record { state = next; revision = (b.revision + 1) % u64 }) entries)
          × (succeeded (commit zero_state k b next entries).1 ≡ 1)
  unfolding commit
  commit_cases k b next entries (s, l, le, eq) = elim (Bool-cases (s.revision == b.revision)) [
    | inl same ↦ inr (ground (arith, eq), ground arith, ground arith)
    | inr other ↦ inl (ground arith, ground arith)
  ]

  Counted-commit :
      (k : K) (b : Snapshot S) (next : S) (entries : Map K (Snapshot S)) (n : ℕ)
      → Counted entries n
      → Counted
          (commit zero_state k b next entries).0
          (n + succeeded (commit zero_state k b next entries).1)
  unfolding commit
  Counted-commit k b next entries n c j s h = elim (Option-cases (lookup k entries)) [
    | inl missing ↦ ground (arith, c j s, lookup-insert j k new entries)
    | inr (cur, found) ↦ ground (arith, c j s, c k cur found, lookup-insert j k new entries)
  ]
    where
      new : Snapshot S
      new = record { state = next; revision = (b.revision + 1) % u64 }

  Fresh-insert :
      (k : K) (b : Snapshot S) (next : S) (entries : Map K (Snapshot S)) (p : K × Snapshot S)
      → b.revision + 1 < u64
      → lookup k entries ≡ some b
      → Fresh entries p
      → Fresh (insert k (record { state = next; revision = (b.revision + 1) % u64 }) entries) p
  Fresh-insert k b next entries (j, a) h l (s, m, le, eq) = elim (Bool-cases (kk.beq k j)) [
    | inl same ↦ (
      new,
      ground (arith, lookup-insert j k new entries),
      ground (arith, kk.beq-eq k j),
      λ e. absurd (ground (arith, kk.beq-eq k j)),
    )
    | inr other ↦ (s, ground (arith, lookup-insert j k new entries), le, eq)
  ]
    where
      new : Snapshot S
      new = record { state = next; revision = (b.revision + 1) % u64 }

  Fresh-commit :
      (k : K) (b : Snapshot S) (next : S) (entries : Map K (Snapshot S)) (n : ℕ)
      (ps : List (K × Snapshot S))
      → Counted entries n
      → n + succeeded (commit zero_state k b next entries).1 < u64
      → Fresh entries (k, b)
      → All (Fresh entries) ps
      → All (Fresh (commit zero_state k b next entries).0) ps
  Fresh-commit k b next entries n ps c h f all = elim (commit_cases k b next entries f) [
    | inl (same, _) ↦ rw same all
    | inr (l, e, one) ↦ rw e (
        All-map (Fresh entries)
          (Fresh (insert k (record { state = next; revision = (b.revision + 1) % u64 }) entries)) ps
          (λ p. Fresh-insert k b next entries p (omega (arith, c k b l)) l) all)
  ]

  Step-Safe : {v u : Store K S} → Step v u → Safe v → Safe u
  unfolding load
  Step-Safe {v} (loads canceled k s h) i = record {
    counted = i.counted;
    fresh = λ n. ((s, ground arith, omega arith, λ _. refl), i.fresh n);
  }
  Step-Safe {v} (commits before after k s next e) i = record {
    counted = Counted-commit k s next v.entries v.commits i.counted;
    fresh = λ n.
        let all = subst (All (Fresh v.entries)) e (i.fresh (omega arith)) in
        let (one, rest) = All-remove (Fresh v.entries) before (k, s) after all in
        Fresh-commit k s next v.entries v.commits (before ++ after) i.counted n one rest;
  }
  Step-Safe {v} (gives_up before after k s e) i = record {
    counted = i.counted;
    fresh = λ n.
        (All-remove (Fresh v.entries) before (k, s) after
          (subst (All (Fresh v.entries)) e (i.fresh n))).1;
  }

  store-Safe : {v u : Store K S} → Safe v → Reach v u → Safe u
  store-Safe i here = i
  store-Safe i (step_after r t) = Step-Safe t (store-Safe i r)

  -- No update is lost. Over any interleaving of loads and conditional commits, from a store with no
  -- update in progress and revisions that do not pass the count of its commits, to one that counts
  -- fewer than 2^64: an update in progress that commits now either finds the very snapshot that it
  -- loaded, and replaces it under the next revision, or finds a later revision, reports both
  -- revisions, and writes nothing.
  pub commit_not_lost :
      (v u : Store K S) (before after : List (K × Snapshot S)) (k : K) (b : Snapshot S) (next : S)
      → Counted v.entries v.commits
      → v.loaded ≡ []
      → Reach v u
      → u.commits < u64
      → u.loaded ≡ before ++ (k, b) ∷ after
      → let (entries, result) = commit zero_state k b next u.entries in
        ((result ≡ ok next)
          × (lookup k u.entries ≡ some b)
          × (entries
              ≡ insert k (record { state = next; revision = (b.revision + 1) % u64 }) u.entries))
        ⊎ ((s : Snapshot S) × (lookup k u.entries ≡ some s)
            × (b.revision < s.revision)
            × (result ≡ err (s.state, lost b.revision s.revision))
            × (entries ≡ u.entries))
  unfolding commit
  commit_not_lost v u before after k b next c none_loaded r n e =
      let start : Safe v = record { counted = c; fresh = λ _. rw none_loaded tt } in
      let all = subst (All (Fresh u.entries)) e ((store-Safe start r).fresh n) in
      let (s, l, le, eq) = (All-remove (Fresh u.entries) before (k, b) after all).0 in
      elim (Bool-cases (s.revision == b.revision)) [
        | inl same ↦ inl (ground arith, ground (arith, eq), ground arith)
        | inr other ↦ inr (s, l, ground arith, ground arith, ground arith)
      ]
