-- ===== src/Tests/Data.antt =====
-- Keys, tables and machines of the tests.
use statemachine.Prelude.{
  ℕ, ◌+◌, ◌==◌, ==_iff, ◌≡◌, refl, Bool, true, none, some, List, [], ◌∷◌, if◌then◌else◌,
}
use statemachine.Errors.{leaf, app, accepts, fails, ok}
use statemachine.Keys.Defs.{Key}
use statemachine.Machine.Defs.{Transition, Machine, compile, compile_rows, add_row, row_valid}
use statemachine.Keys.Maps.{append_at, items, insert, lookup}

pub nat_eq : (a b : ℕ) → (a == b) ≡ true → a ≡ b
nat_eq a b h = (==_iff a b).0 h

pub nat_self : (a : ℕ) → ◌≡◌ {A = Bool} true true → (◌≡◌ {A = Bool} true true) × ((a == a) ≡ true)
nat_self a h = (refl, (==_iff a a).1 refl)

instance abbrev pub nat_key : Key ℕ
nat_key = record {
  beq = ◌==◌;
  comparable = λ _. true;
  strict_type = true;
  reflexive_type = true;
  beq-eq = nat_eq;
  reflexive_all = nat_self;
}

abbrev pub Row : Type 0
Row = Transition ℕ ℕ ℕ ℕ ℕ

-- The context and the data are numbers, and so is the world, in which effects count.
abbrev pub table : List Row
table =
    record {
      from = 0;
      event = 0;
      to = 1;
      guard = some (λ c d w. if w == 0 then fails (leaf (app 7)) else accepts);
      effect = some (λ c d w. (accepts, w + 1));
    }
    ∷ record { from = 0; event = 0; to = 2; guard = none; effect = none }
    ∷ record { from = 1; event = 1; to = 0; guard = none; effect = none }
    ∷ []

unfoldable pub light : Machine ℕ ℕ ℕ ℕ ℕ
light = record {
  rows =
      ((0, 0), rows_of_flip)
      ∷ ((1, 1), record { from = 1; event = 1; to = 0; guard = none; effect = none } ∷ [])
      ∷ [];
  events = (0, 0 ∷ []) ∷ (1, 1 ∷ []) ∷ [];
  reflexive_state = true;
  reflexive_event = true;
}
  where
    rows_of_flip : List Row
    rows_of_flip =
        record {
          from = 0;
          event = 0;
          to = 1;
          guard = some (λ c d w. if w == 0 then fails (leaf (app 7)) else accepts);
          effect = some (λ c d w. (accepts, w + 1));
        }
        ∷ record { from = 0; event = 0; to = 2; guard = none; effect = none }
        ∷ []

pub light_compiles : compile table ≡ ok light
unfolding compile compile_rows add_row row_valid append_at items insert lookup light
light_compiles = refl
