-- ===== src/Tests/Definitions.antt =====
-- Strict definitions at concrete inputs.
use statemachine.Prelude.{ℕ, ◌≡◌, refl, true, false, none, some, List, [], ◌∷◌, ◌++◌, All}
use statemachine.Errors.{accepts, Result, ok, err}
use statemachine.Keys.Defs.{both_key}
use statemachine.Keys.Maps.{elem, lookup, insert, items, append_at}
use statemachine.Supervised.Machine.{
  State, Transition, Definition, Machine, Check, Reconciler, finishes,
}
use statemachine.Supervised.Declarations
use statemachine.Supervised.DeclaredRows.{row_defects, gather_rows}
use statemachine.Supervised.Compile.{
  unhandled_events, total_defects, grow, reach_rounds, reached, unreachable_states, reach_defects,
  gather, machine_of, compile_strict,
}
use statemachine.Supervised.Reachable.{Closed, reached-Closed}
use statemachine.Supervised.Strict.{Checked, compile_strict-answers, compile_strict-Total}
use statemachine.Tests.Data.{nat_key}

abbrev pass : Check ℕ ℕ ℕ ℕ ℕ
pass c change d w = (finishes accepts, w)

abbrev agree : Reconciler ℕ ℕ ℕ ℕ ℕ
agree c snapshot d w = (finishes accepts, w)

-- A door that opens on event 0 and then stays open; event 1 is refused.
abbrev opening : Transition ℕ ℕ ℕ ℕ ℕ
opening = record {
  id = 3;
  from = 0;
  event = 0;
  to = 1;
  guard = none;
  preconditions = [];
  issue = some pass;
  verify = some pass;
}

abbrev door : Definition ℕ ℕ ℕ ℕ ℕ
door = record {
  id = 5;
  states =
      record { name = 0; terminal = false; refuse = 1 ∷ [] }
      ∷ record { name = 1; terminal = true; refuse = [] }
      ∷ [];
  events = 0 ∷ 1 ∷ [];
  initial = 0;
  transitions = opening ∷ [];
  preconditions = some pass ∷ [];
  invariants = some pass ∷ [];
  postconditions = some pass ∷ [];
  reconcile = some agree ∷ [];
}

-- The same with a state that nothing reaches.
abbrev lost_room : Definition ℕ ℕ ℕ ℕ ℕ
lost_room = record door {
  states = door.states ++ record { name = 2; terminal = true; refuse = [] } ∷ [];
}

accepts_door : compile_strict door ≡ some (ok (machine_of door (gather door)))
unfolding compile_strict Declarations.keys_valid gather reach_defects reach_rounds grow
    unreachable_states Declarations.gather_states Declarations.gather_events
    Declarations.gather_all_refusals Declarations.gather_refusals Declarations.callback_defects
    Declarations.nil_callbacks gather_rows row_defects total_defects unhandled_events lookup insert
    elem append_at items
accepts_door = refl

refuses_lost_room : compile_strict lost_room ≡ some (err (Declarations.unreachable 2 ∷ []))
unfolding compile_strict Declarations.keys_valid gather reach_defects reach_rounds grow
    unreachable_states Declarations.gather_states Declarations.gather_events
    Declarations.gather_all_refusals Declarations.gather_refusals Declarations.callback_defects
    Declarations.nil_callbacks gather_rows row_defects total_defects unhandled_events lookup insert
    elem append_at items
refuses_lost_room = refl

compile_strict-Total_example :
    All (λ (s : State ℕ ℕ). Checked door (s.name, s.terminal)) door.states
compile_strict-Total_example =
    compile_strict-Total door (machine_of door (gather door)) accepts_door

compile_strict-answers_example :
    (r : Result (List (Declarations.Defect ℕ ℕ)) (Machine ℕ ℕ ℕ ℕ ℕ)) × (compile_strict lost_room
      ≡ some r)
compile_strict-answers_example = compile_strict-answers lost_room

reached-Closed_example :
    (more : List ℕ) × (reached 0 (opening ∷ []) ≡ some more)
    × Closed more (opening ∷ [])
    × (elem 0 more ≡ true)
    × ((P : ℕ → Type 0)
        → All (λ t. P t.from → P t.to) (opening ∷ [])
        → P 0
        → (x : ℕ) → elem x more ≡ true
        → P x)
reached-Closed_example = reached-Closed 0 (opening ∷ []) refl (refl, tt)
