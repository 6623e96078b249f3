-- ===== src/Tests/Flat.antt =====
-- Machines, instances and observers at concrete inputs.
use statemachine.Prelude.{
  ℕ, ◌+◌, ◌%◌, ◌≡◌, refl, true, false, ◌⊎◌, ◌↔◌, Option, none, some, List, [], ◌∷◌, All, Pairs,
}
use statemachine.Errors.{
  Error, is, observer_failed, Unwind, panicked, Outcome, returned, unwound, ok,
}
use statemachine.Machine.Defs.{Machine, compile, next, fire, permitted}
use statemachine.Machine.Table.{matching, mentions}
use statemachine.Machine.Compile.{ValidRow, Open, compile-accepts}
use statemachine.Machine.Select.{Picks}
use statemachine.Machine.Refine.{planned, next-table, offers, permitted-next}
use statemachine.Observer.Defs.{
  Observer, Observation, Failure, deliver, delivery_error, transition_observations, u64,
}
use statemachine.Observer.Delivery.{calls, make, deliver-make, delivery_error-is}
use statemachine.Instance.Defs.{Instance, begin, fire_instance, commit, attached}
use statemachine.Instance.Fire.{numbers, fire_instance-commit, commit-seq}
use statemachine.Instance.Flight.{System, Safe, Reach, running, starts, here, then, flights-Safe}
use statemachine.Tests.Data.{nat_key, Row, table, light, light_compiles}

next-table_example :
    (es : List Error) × (r : Outcome (Option Row)) × Picks 5 6 0 (matching 0 0 table) es r
    × (next light 5 0 0 6 0 ≡ planned 0 es r)
next-table_example = next-table table light 5 0 0 6 0 light_compiles refl refl

permitted-next_example : permitted light 5 0 6 1 ≡ offers light 5 0 (mentions 0 [] table) 6 1
permitted-next_example = permitted-next table light 5 0 6 1 light_compiles refl

compile-accepts_example : ((n : Machine ℕ ℕ ℕ ℕ ℕ) × (compile table ≡ ok n)) ↔ (
    (nat_key.strict_type ≡ true)
    × (nat_key.strict_type ≡ true)
    × All ValidRow table
    × Pairs Open table)
compile-accepts_example = compile-accepts table

-- An observer that counts its calls, and one that panics.
abbrev counts : Observer ℕ (Observation ℕ ℕ) ℕ ℕ
counts c o d w = (none, w + 1)

abbrev breaks : Observer ℕ (Observation ℕ ℕ) ℕ ℕ
breaks c o d w = (some (panicked 3), w)

deliver-make_example :
    deliver (breaks ∷ counts ∷ []) 5 (transition_observations 1 1 0 2 0) 6 0
    ≡ make 5 6 (calls (breaks ∷ counts ∷ []) (transition_observations 1 1 0 2 0)) 0
deliver-make_example = deliver-make 5 6 (breaks ∷ counts ∷ []) (transition_observations 1 1 0 2 0) 0

abbrev failure : Failure
failure = record { observer = 0; seq = 1; cause = panicked 3 }

delivery_error-is_example :
    ((failure ∷ [] ≡ []) × (delivery_error (failure ∷ []) ≡ none))
    ⊎ ((e : Error) × (delivery_error (failure ∷ []) ≡ some e) × (is e observer_failed ≡ true))
delivery_error-is_example = delivery_error-is (failure ∷ [])

abbrev watched : Instance ℕ ℕ ℕ ℕ ℕ
watched = record { machine = light; state = 0; flying = false; observers = counts ∷ []; seq = 0 }

fire_instance-commit_example :
    let (i', r, w') = fire_instance watched 5 0 6 1 in
    (i'.flying ≡ false)
    × (i'.machine ≡ light)
    × (i'.observers ≡ counts ∷ [])
    × ((s : ℕ) → (fire light 5 0 0 6 1).0 ≡ returned (s, none) → i'.state ≡ s)
    × ((s : ℕ) (x : Error)
        → (fire light 5 0 0 6 1).0 ≡ returned (s, some x)
        → (i' ≡ watched) × (r ≡ returned (0, some x)))
    × ((u : Unwind) → (fire light 5 0 0 6 1).0 ≡ unwound u → (i' ≡ watched) × (r ≡ unwound u))
fire_instance-commit_example = fire_instance-commit watched 5 0 6 1 refl

commit-seq_example :
    let (i', p) = commit watched 0 1 none in
    ((nat_key.beq 0 1 ≡ false)
      → attached (counts ∷ []) ≡ true
      → (p.observers ≡ counts ∷ [])
        × (numbers (transition_observations {S = ℕ} {E = ℕ} p.step p.step 0 1 0)
            ≡ (0 + 1) % u64 ∷ (0 + 2) % u64 ∷ [])
        × (i'.seq ≡ (0 + 2) % u64))
    × ((nat_key.beq 0 1 ≡ true) ⊎ (attached (counts ∷ []) ≡ false)
        → (p.observers ≡ []) × (i'.seq ≡ 0))
commit-seq_example = commit-seq watched 1 0

abbrev resting : System ℕ ℕ ℕ ℕ ℕ
resting = record { instance_of = watched; calls = []; changes = [] }

abbrev in_the_air : System ℕ ℕ ℕ ℕ ℕ
in_the_air = record {
  instance_of = record watched { flying = true };
  calls = running 1 0 ∷ [];
  changes = [];
}

resting-Safe : Safe 0 resting
resting-Safe = record { single = refl; chain = refl }

resting-Reach : Reach resting in_the_air
unfolding begin
resting-Reach = then here (starts 1 (record watched { flying = true }) refl)

flights-Safe_example : Safe 0 in_the_air
flights-Safe_example = flights-Safe 0 resting-Safe resting-Reach
