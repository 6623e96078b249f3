-- ===== src/Queued/Scheduler.antt =====
-- The scheduler of one Runtime as a step relation: callers of Fire, and the drain goroutine.
use mathlib.Core.List.{Sublist}
use statemachine.Prelude.{
  ℕ, ◌+◌, ◌≤◌, ◌≡◌, Bool, true, false, none, some, List, [], ◌∷◌, ◌++◌, length,
}
use statemachine.Queued.Runtime.{
  Limits, Runtime, limits_of, new_runtime, Admission, rejected, queued, starts_drain, admit, cancel,
  take_root, complete,
}

-- The drain goroutine, when one lives: about to look at the queue, or executing a root.
pub data Drain : Type 0 where
  looks : Drain
  executes : ℕ → Drain

-- A Runtime, its drain goroutines, and the roots that were admitted and started so far, in order.
pub record System : Type 0 where
  pub runtime : Runtime
  pub drains : List Drain
  pub admitted : List ℕ
  pub started : List ℕ

abbrev pub spawned : Admission → List Drain → List Drain
spawned (rejected e) ds = ds
spawned queued ds = ds
spawned starts_drain ds = looks ∷ ds

abbrev pub noted : Admission → ℕ → List ℕ → List ℕ
noted (rejected e) root rs = rs
noted queued root rs = rs ++ root ∷ []
noted starts_drain root rs = rs ++ root ∷ []

pub data Step (v : System) : System → Type 0 where
  fires :
      (root : ℕ)
      → Step v (record v {
        runtime = (admit v.runtime root).0;
        drains = spawned (admit v.runtime root).1 v.drains;
        admitted = noted (admit v.runtime root).1 root v.admitted;
      })
  cancels : (root : ℕ) → Step v (record v { runtime = (cancel v.runtime root).0 })
  takes :
      (before after : List Drain) (root : ℕ)
      → v.drains ≡ before ++ looks ∷ after
      → (take_root v.runtime).1 ≡ some root
      → Step v (record v {
        runtime = (take_root v.runtime).0;
        drains = before ++ executes root ∷ after;
        started = v.started ++ root ∷ [];
      })
  ends :
      (before after : List Drain)
      → v.drains ≡ before ++ looks ∷ after
      → (take_root v.runtime).1 ≡ none
      → Step v (record v { runtime = (take_root v.runtime).0; drains = before ++ after })
  completes :
      (before after : List Drain) (root : ℕ)
      → v.drains ≡ before ++ executes root ∷ after
      → Step v (record v { runtime = complete v.runtime; drains = before ++ looks ∷ after })

pub data Reach (v : System) : System → Type 0 where
  here : Reach v v
  step_after : {u t : System} → Reach v u → Step u t → Reach v t

-- What the goroutines and the counters of a Runtime with these roots in its queue are like.
abbrev pub Single : List Drain → Bool → List ℕ → ℕ → Type 0
Single [] running roots count = (running ≡ false) × (roots ≡ []) × (count ≡ 0)
Single (looks ∷ []) running roots count = (running ≡ true) × (count ≡ length roots)
Single (executes r ∷ []) running roots count = (running ≡ true) × (count ≡ length roots + 1)
Single (x ∷ y ∷ ds) running roots count = ⊥

pub record Safe (limits : Limits) (v : System) : Type 0 where
  pub single : Single v.drains v.runtime.running v.runtime.roots v.runtime.root_count
  pub bounded : v.runtime.root_count ≤ limits.max_roots
  pub limited : limits_of v.runtime ≡ limits
  pub ordered : Sublist (v.started ++ v.runtime.roots) v.admitted

unfoldable pub start : Limits → System
start limits = record { runtime = new_runtime limits; drains = []; admitted = []; started = [] }
