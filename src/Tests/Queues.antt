-- ===== src/Tests/Queues.antt =====
-- Runtimes at concrete inputs.
use statemachine.Prelude.{
  ℕ, ◌+◌, ◌≡◌, refl, ◌&&◌, ◌==◌, true, false, inl, inr, Option, none, some, List, [], ◌∷◌, arith,
  Bool-cases, Option-cases,
}
use statemachine.Errors.{Error, accepts, fails, Reply}
use statemachine.Machine.Defs.{Machine, fire, select_transition, select_rows, perform}
use statemachine.Keys.Maps.{items, lookup}
use statemachine.Queued.Cascade.{Item, Cascade, Enqueues, quiet, more, declined, enqueue}
use statemachine.Queued.Run.{Progress, RootOutcome, run}
use statemachine.Queued.Bound.{Honest, Closed, run-Closed}
use statemachine.Queued.Runtime.{default_limits, admit, take_root}
use statemachine.Queued.Scheduler.{
  System, executes, Safe, Reach, here, step_after, fires, takes, start,
}
use statemachine.Queued.Roots.{roots-Safe}
use statemachine.Tests.Data.{nat_key}

abbrev World : Type 0
World = Cascade ℕ ℕ ℕ × ℕ

abbrev again : Item ℕ ℕ ℕ
again = record { context = 0; event = 1; payload = 0 }

-- An effect that enqueues one follow-up and fails where that does.
abbrev follow : ℕ → ℕ → World → Reply × World
follow c d (q, v) =
    let (q', e) = enqueue q again in (elim e [ none ↦ accepts | some x ↦ fails x ], (q', v + 1))

abbrev chained : Machine ℕ ℕ ℕ ℕ World
chained = record {
  rows =
      ((0, 0), record { from = 0; event = 0; to = 1; guard = none; effect = some follow } ∷ [])
      ∷ ((1, 1), record { from = 1; event = 1; to = 0; guard = none; effect = none } ∷ [])
      ∷ [];
  events = (0, 0 ∷ []) ∷ (1, 1 ∷ []) ∷ [];
  reflexive_state = true;
  reflexive_event = true;
}

abbrev no_error : ℕ → ℕ → Option Error
no_error c v = none

followed : (q : Cascade ℕ ℕ ℕ) → (xs : List (Item ℕ ℕ ℕ)) × Enqueues q (enqueue q again).0 xs
followed q = elim (Option-cases (enqueue q again).1) [
  | inl h ↦ (again ∷ [], more again quiet h)
  | inr (e, h) ↦ ([], declined again quiet h)
]

chained-Honest : Honest no_error (λ c. c) chained
unfolding fire select_transition select_rows perform items lookup
chained-Honest c s e d q v = elim (Bool-cases (0 == s && 0 == e)) [
  | inl first ↦ rw (first, fire, lookup) (followed q)
  | inr other ↦ elim (Bool-cases (1 == s && 1 == e)) [
    | inl second ↦ rw (other, second, fire, lookup) ([], quiet)
    | inr third ↦ rw (other, third, fire, lookup) ([], quiet)
  ]
]

abbrev idle_start : Progress ℕ ℕ ℕ ℕ ℕ
idle_start = record {
  owner = record { machine = chained; state = 0; flying = false; observers = []; seq = 0 };
  observers = [];
  seq = 0;
  last_panic = none;
  run = 0;
  failures = [];
  cascade = record { active = false; pending = []; accepted = 0; maximum = 0 };
  world = 0;
}

abbrev first_event : Item ℕ ℕ ℕ
first_event = record { context = 0; event = 0; payload = 0 }

run-Closed_example :
    (r : Progress ℕ ℕ ℕ ℕ ℕ × RootOutcome ℕ) × (run no_error
        (λ c. c)
        4
        (λ c. c)
        4
        idle_start
        first_event
      ≡ some r)
    × Closed no_error (λ c. c) chained r.0
run-Closed_example =
    run-Closed no_error (λ c. c) chained 4 (λ c. c) 4 idle_start first_event chained-Honest
      (record { machine = refl; unobserved = refl; idle = refl }) (omega arith) (omega arith)

abbrev executing : System
executing = record {
  runtime = record { roots = 8 ∷ []; running = true; limits = default_limits; root_count = 2 };
  drains = executes 7 ∷ [];
  admitted = 7 ∷ 8 ∷ [];
  started = 7 ∷ [];
}

-- Two calls of Fire, and the drain goroutine takes the first root.
executing-Reach : Reach (start default_limits) executing
unfolding start admit take_root
executing-Reach =
    step_after (step_after (step_after here (fires 7)) (fires 8)) (takes [] [] 7 refl refl)

roots-Safe_example : Safe default_limits executing
roots-Safe_example = roots-Safe default_limits (omega arith) executing-Reach
