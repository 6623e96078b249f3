-- ===== src/Tests/Stores.antt =====
-- Stores at concrete inputs.
use statemachine.Prelude.{
  ℕ, ◌+◌, ◌%◌, ◌<◌, ◌≡◌, refl, true, false, ◌⊎◌, ◌↔◌, Option, none, some, [], ◌∷◌, if◌then◌else◌,
  arith,
}
use statemachine.Errors.{Error, Unwind, Outcome, returned, unwound, ok, err}
use statemachine.Keys.Defs.{value}
use statemachine.Keys.Maps.{Map, lookup, insert}
use statemachine.Machine.Defs.{fire, select_transition, select_rows, perform}
use statemachine.Keys.Maps.{items}
use statemachine.Instance.Defs.{
  new_instance, fire_instance, begin, conclude, commit as commit_instance, finish,
}
use statemachine.Observer.Defs.{u64}
use statemachine.Persist.Memory.{Snapshot, plain, lost, load, commit, update, update_alone}
use statemachine.Persist.Commits.{
  Counted, Store as Entries, Reach, loads, here, step_after, commit_not_lost,
}
use statemachine.Persist.Apply.{
  calls, returns, Store, Strategy, fire_step, StepResult, Attempt, apply, run_update, step,
  settle_step, judge, fresh,
}
use statemachine.Persist.Contract.{stepped, apply-once, apply-success, judge-none}
use statemachine.Tests.Data.{nat_key, light}

-- Data that is the unit of work itself.
abbrev given : ℕ → ℕ → Outcome ℕ × ℕ
given x w = (returned x, w)

-- A store that calls the step once in state 0 and returns what it answers.
abbrev honest_store : Store ℕ ℕ ℕ ℕ
honest_store c k =
    calls c 0 9
      (λ answer. elim answer [ returned r ↦ returns (r.0) (r.1) | unwound u ↦ returns 0 none ])

apply-once_example :
    let (r, w') = apply 0 0 5 (some honest_store) 3 (some light) 0 (some given) 1 in
    (w' ≡ 1)
    ⊎ ((c' : ℕ) × (from : ℕ) × (x : ℕ) × (k : Outcome (ℕ × Option Error) → Strategy ℕ ℕ ℕ)
        × (honest_store 5 3 ≡ calls c' from x k)
        × (w' ≡ stepped light 0 given c' from (given x 1)))
apply-once_example = apply-once 0 0 5 honest_store 3 light 0 given 1

abbrev moved : StepResult ℕ ℕ
moved = record {
  from = 0;
  to = 1;
  event = 0;
  attempted = true;
  confirmed = true;
  transition_error = none;
}

succeeds :
    apply 0 0 5 (some honest_store) 3 (some light) 0 (some given) 1 ≡ (returned (1, moved, none), 2)
unfolding apply run_update step fire_step settle_step judge fire_instance new_instance begin
    conclude commit_instance finish fire select_transition select_rows perform items lookup light
succeeds = refl

apply-success_example :
    (c' : ℕ) × (from : ℕ) × (x : ℕ) × (k : Outcome (ℕ × Option Error) → Strategy ℕ ℕ ℕ) × (v : ℕ)
    × (u : ℕ) × (honest_store 5 3 ≡ calls c' from x k)
    × (given x 1 ≡ (returned v, u))
    × (fire light c' from 0 v u ≡ (returned (1, none), 2))
    × (moved ≡ record {
      from = from;
      to = 1;
      event = 0;
      attempted = true;
      confirmed = true;
      transition_error = none;
    })
apply-success_example = apply-success 0 0 5 honest_store 3 light 0 given 1 2 1 moved succeeds

judge-none_example :
    let a : Attempt ℕ ℕ = fresh 0 0 in
    let (s, r, x) = judge a 4 none in
    ((x ≡ none) ↔ (
      (a.started ≡ true)
      × (a.completed ≡ true)
      × (a.repeated ≡ false)
      × (◌≡◌ {A = Option Error} none none)
      × (a.result.transition_error ≡ none)
      × (value {K = ℕ} 4 ≡ true)
      × (nat_key.beq 4 a.result.to ≡ true)))
    × ((r.confirmed ≡ true) ↔ (x ≡ none))
    × (s ≡ 4)
judge-none_example = judge-none (fresh 0 0) 4 none refl

abbrev shelf : Map ℕ (Snapshot ℕ)
shelf = (3, record { state = 0; revision = 4 }) ∷ []

abbrev bump : ℕ → ℕ → ℕ × ℕ → ℕ → Outcome (ℕ × Option Error) × ℕ
bump c s unit w = (returned (s + 1, none), w + 1)

abbrev live : ℕ → ℕ → Option Error
live c w = none

shelf_loads : load none 3 shelf ≡ ok (record { state = 0; revision = 4 })
unfolding load lookup
shelf_loads = refl

update_alone_example :
    let (result, entries', w'') = update live 0 5 3 bump shelf 1 in
    (w'' ≡ 2)
    × ((next : ℕ)
        → ◌≡◌ {A = Outcome (ℕ × Option Error)} (returned (1, none)) (returned (next, none))
        → (result ≡ returned (ok next))
          × ((j : ℕ)
              → lookup j entries' ≡ (
                  if nat_key.beq 3 j
                  then some (record { state = next; revision = (4 + 1) % u64 })
                  else lookup j shelf)))
    × ((next : ℕ) (e : Error)
        → ◌≡◌ {A = Outcome (ℕ × Option Error)} (returned (1, none)) (returned (next, some e))
        → (result ≡ returned (err (0, plain e))) × (entries' ≡ shelf))
    × ((u : Unwind)
        → ◌≡◌ {A = Outcome (ℕ × Option Error)} (returned (1, none)) (unwound u)
        → (result ≡ unwound u) × (entries' ≡ shelf))
update_alone_example =
    update_alone live 0 5 3 bump shelf 1 2 (record { state = 0; revision = 4 }) (returned (1, none))
      shelf_loads refl refl

abbrev calm : Entries ℕ ℕ
calm = record { entries = shelf; loaded = []; commits = 4 }

abbrev held : Snapshot ℕ
held = record { state = 0; revision = 4 }

abbrev busy : Entries ℕ ℕ
busy = record { entries = shelf; loaded = (3, held) ∷ []; commits = 4 }

calm-Counted : Counted 0 shelf 4
unfolding lookup
calm-Counted k s h = ground arith

calm-Reach : Reach 0 calm busy
calm-Reach = step_after here (loads none 3 held shelf_loads)

commit_not_lost_example :
    let (entries, result) = commit 0 3 held 8 shelf in
    ((result ≡ ok 8)
      × (lookup 3 shelf ≡ some held)
      × (entries ≡ insert 3 (record { state = 8; revision = (4 + 1) % u64 }) shelf))
    ⊎ ((s : Snapshot ℕ) × (lookup 3 shelf ≡ some s)
        × (4 < s.revision)
        × (result ≡ err (s.state, lost 4 s.revision))
        × (entries ≡ shelf))
commit_not_lost_example =
    commit_not_lost 0 calm busy [] [] 3 held 8 calm-Counted refl calm-Reach (omega arith) refl
