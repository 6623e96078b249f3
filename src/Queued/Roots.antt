-- ===== src/Queued/Roots.antt =====
-- Many callers of Fire and the drain goroutine of one Runtime, as interleavings of their sections.
use mathlib.Core.List.{Sublist}
use mathlib.Core.List.Sublist
use statemachine.Prelude.{
  ℕ, ◌+◌, ◌-◌, ◌≤◌, ◌==◌, ◌≡◌, refl, sym, ap, subst, subst₂, ◌∙◌, Bool, false, inl, inr, none, some,
  List, [], ◌∷◌, ◌++◌, append_assoc, leb, length, length-append, arith, Bool-cases, Option-cases,
}
use statemachine.Queued.Runtime.{
  Limits, Runtime, limits_of, admit, remove_root, cancel, take_root, complete,
}
-- The drain goroutine, when one lives: about to look at the queue, or executing a root.
use statemachine.Queued.Scheduler.{
  Drain, looks, executes, System, spawned, noted, Step, fires, cancels, takes, ends, completes,
  Reach, here, step_after, Single, Safe, start,
}

Single-admit :
    (ds : List Drain) (r : Runtime) (root : ℕ)
    → Single ds r.running r.roots r.root_count
    → let (r', a) = admit r root in Single (spawned a ds) r'.running r'.roots r'.root_count
unfolding admit
Single-admit [] r root h = ground (arith, length-append r.roots (root ∷ []))
Single-admit (looks ∷ []) r root h = ground (arith, length-append r.roots (root ∷ []))
Single-admit (executes x ∷ []) r root h = ground (arith, length-append r.roots (root ∷ []))
Single-admit (x ∷ y ∷ ds) r root h = absurd h

remove_root-length :
    (xs ys : List ℕ) (root : ℕ) → remove_root xs root ≡ some ys → length xs ≡ length ys + 1
unfolding remove_root
remove_root-length [] ys root h = absurd (ground arith)
remove_root-length (x ∷ xs) ys root h = elim (Option-cases (remove_root xs root)) [
  | inl missing ↦ ground arith
  | inr (zs, found) ↦ ground (arith, remove_root-length xs zs root found)
]

remove_root-sublist : (xs ys : List ℕ) (root : ℕ) → remove_root xs root ≡ some ys → Sublist ys xs
unfolding remove_root
remove_root-sublist [] ys root h = absurd (ground arith)
remove_root-sublist (x ∷ xs) ys root h = elim (Bool-cases (x == root)) [
  | inl hit ↦
      let e : xs ≡ ys = ground arith in
      subst (λ zs. Sublist zs (x ∷ xs)) e (Sublist.cons x (Sublist.refl xs))
  | inr miss ↦ elim (Option-cases (remove_root xs root)) [
    | inl missing ↦ absurd (ground arith)
    | inr (zs, found) ↦
        let e : x ∷ zs ≡ ys = ground arith in
        subst (λ us. Sublist us (x ∷ xs)) e
          (Sublist.cons-cons x (remove_root-sublist xs zs root found))
  ]
]

-- A living drain goroutine is the only one.
alone :
    (before after : List Drain) (x : Drain) (running : Bool) (roots : List ℕ) (count : ℕ)
    → Single (before ++ x ∷ after) running roots count
    → (before ≡ []) × (after ≡ [])
alone [] [] x running roots count h = (refl, refl)
alone [] (y ∷ after) looks running roots count h = absurd h
alone [] (y ∷ after) (executes r) running roots count h = absurd h
alone (looks ∷ []) after x running roots count h = absurd h
alone (executes r ∷ []) after x running roots count h = absurd h
alone (looks ∷ z ∷ before) after x running roots count h = absurd h
alone (executes r ∷ z ∷ before) after x running roots count h = absurd h

-- In a safe system a goroutine that lives is the only one.
only :
    {limits : Limits} {v : System} (before after : List Drain) (x : Drain)
    → Safe limits v
    → v.drains ≡ before ++ x ∷ after
    → (before ≡ [])
      × (after ≡ [])
      × Single (x ∷ []) v.runtime.running v.runtime.roots v.runtime.root_count
only {limits} {v} before after x s e =
    let at =
      λ (ds : List Drain). Single ds v.runtime.running v.runtime.roots v.runtime.root_count in
    let single = subst at e s.single in
    let (b, f) = alone before after x _ _ _ single in
    (b, f, subst₂ (λ bs fs. at (bs ++ x ∷ fs)) b f single)

Single-cancel :
    (ds : List Drain) (r : Runtime) (root : ℕ)
    → Single ds r.running r.roots r.root_count
    → let r' = (cancel r root).0 in Single ds r'.running r'.roots r'.root_count
unfolding cancel
Single-cancel ds r root h = elim (Option-cases (remove_root r.roots root)) [
  | inl missing ↦ rw (missing, cancel) h
  | inr (ys, found) ↦ rw (found, cancel) (go ys ds h (remove_root-length r.roots ys root found))
]
  where
    go :
        (ys : List ℕ) (es : List Drain)
        → Single es r.running r.roots r.root_count
        → length r.roots ≡ length ys + 1
        → Single es r.running ys (r.root_count - 1)
    go ys [] k l = absurd (ground (arith, k.1))
    go ys (looks ∷ []) k l = (k.0, omega (arith, k.1, l))
    go ys (executes x ∷ []) k l = (k.0, omega (arith, k.1, l))
    go ys (x ∷ y ∷ es) k l = absurd k

admitted_order :
    (v : System) (root : ℕ)
    → Sublist (v.started ++ v.runtime.roots) v.admitted
    → let (r', a) = admit v.runtime root in
      Sublist (v.started ++ r'.roots) (noted a root v.admitted)
unfolding admit
admitted_order v root h =
    elim (Bool-cases (leb (limits_of v.runtime).max_roots v.runtime.root_count)) [
      | inl full ↦ rw (full, admit) h
      | inr room ↦
          let longer =
            subst (λ xs. Sublist xs (v.admitted ++ root ∷ []))
              (append_assoc v.started v.runtime.roots (root ∷ []))
              (Sublist.append h (Sublist.refl (root ∷ []))) in
          elim (Bool-cases v.runtime.running) [
            | inl on ↦ rw (room, on, admit) longer
            | inr off ↦ rw (room, off, admit) longer
          ]
    ]

canceled_order :
    (v : System) (root : ℕ)
    → Sublist (v.started ++ v.runtime.roots) v.admitted
    → Sublist (v.started ++ (cancel v.runtime root).0.roots) v.admitted
unfolding cancel
canceled_order v root h = elim (Option-cases (remove_root v.runtime.roots root)) [
  | inl missing ↦ rw (missing, cancel) h
  | inr (ys, found) ↦
      rw (found, cancel)
        (Sublist.trans
          (Sublist.append (Sublist.refl v.started)
            (remove_root-sublist v.runtime.roots ys root found))
          h)
]

-- A root that the goroutine takes is the oldest one in the queue.
taken :
    (v : System) (root : ℕ)
    → (take_root v.runtime).1 ≡ some root
    → (rest : List ℕ) × (v.runtime.roots ≡ root ∷ rest)
      × ((take_root v.runtime).0 ≡ record (v.runtime) { roots = rest })
unfolding take_root
taken v root h = go v.runtime.roots refl
  where
    go :
        (xs : List ℕ)
        → v.runtime.roots ≡ xs
        → (rest : List ℕ) × (v.runtime.roots ≡ root ∷ rest)
          × ((take_root v.runtime).0 ≡ record (v.runtime) { roots = rest })
    go [] e = absurd (ground arith)
    go (x ∷ xs) e = (xs, ground arith, ground arith)

left_over :
    (v : System)
    → (take_root v.runtime).1 ≡ none
    → (v.runtime.roots ≡ [])
      × ((take_root v.runtime).0 ≡ record (v.runtime) { running = false; roots = [] })
unfolding take_root
left_over v h = ground arith

Step-Safe : {limits : Limits} {v u : System} → Step v u → Safe limits v → Safe limits u
unfolding complete
Step-Safe {limits} {v} (fires root) s = record {
  single = Single-admit v.drains v.runtime root s.single;
  bounded = unfold admit in ground (arith, s.bounded, s.limited);
  limited = unfold admit in ground (arith, s.limited);
  ordered = admitted_order v root s.ordered;
}
Step-Safe {limits} {v} (cancels root) s = record {
  single = Single-cancel v.drains v.runtime root s.single;
  bounded = unfold cancel in ground (arith, s.bounded);
  limited = unfold cancel in ground (arith, s.limited);
  ordered = canceled_order v root s.ordered;
}
Step-Safe {limits} {v} (takes before after root e t) s =
    let (b, f, o) = only before after looks s e in
    let (rest, q, k) = taken v root t in
    record {
      single = rw (b, f) (ground (arith, o.0, o.1, q, k));
      bounded = ground (arith, s.bounded, k);
      limited = ground (arith, s.limited, k);
      ordered = rw k (
          subst (λ xs. Sublist xs v.admitted)
            (ap (λ xs. v.started ++ xs) q ∙ sym (append_assoc v.started (root ∷ []) rest))
            s.ordered);
    }
Step-Safe {limits} {v} (ends before after e t) s =
    let (b, f, o) = only before after looks s e in
    let (q, k) = left_over v t in
    record {
      single = rw (b, f) (ground (arith, o.1, q, k));
      bounded = ground (arith, s.bounded, k);
      limited = ground (arith, s.limited, k);
      ordered = rw k (subst (λ xs. Sublist (v.started ++ xs) v.admitted) q s.ordered);
    }
Step-Safe {limits} {v} (completes before after root e) s =
    let (b, f, o) = only before after (executes root) s e in
    record {
      single = rw (b, f) ((o.0, omega (arith, o.1)));
      bounded = omega (arith, s.bounded);
      limited = s.limited;
      ordered = s.ordered;
    }

-- Over any interleaving of calls and drain sections from a new Runtime with positive limits:
-- at most one drain goroutine lives, and it does whenever a root waits; the root count is that of
-- the waiting and the executing roots and never passes the limit; and the roots started so far,
-- followed by those that wait, are in the order in which they were admitted.
pub roots-Safe :
    (limits : Limits) {u : System} → 1 ≤ limits.max_roots → Reach (start limits) u → Safe limits u
unfolding start
roots-Safe limits h here = record {
  single = (refl, refl, refl);
  bounded = omega arith;
  limited = ground arith;
  ordered = Sublist.refl [];
}
roots-Safe limits h (step_after r t) = Step-Safe t (roots-Safe limits h r)
