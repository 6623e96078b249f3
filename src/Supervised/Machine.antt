-- ===== src/Supervised/Machine.antt =====
-- supervised/definition.go: the types of strict definitions and of the Machines made of them.
use statemachine.Prelude.{ℕ, Bool, Option, List}
use statemachine.Errors.{Error, Reply}
use statemachine.Keys.Maps.{Map}
use statemachine.Supervised.Types.{Change, Snapshot}

-- A callback that ends, or that the operation stops to wait for when its context is over with this
-- error.
pub data Response : Type 0 where
  finishes : Reply → Response
  overruns : Error → Response

-- Precondition, Check, Guard and Action: C is the caller's context, T the data, and W all that
-- callbacks read and change, the Supervisor among it. A Precondition's Change has no row yet.
abbrev pub Check : Type 0 → Type 0 → Type 0 → Type 0 → Type 0 → Type 0
Check S E C T W = C → Change S E → T → W → Response × W

abbrev pub Reconciler : Type 0 → Type 0 → Type 0 → Type 0 → Type 0 → Type 0
Reconciler S E C T W = C → Snapshot S E → T → W → Response × W

pub record State (S E : Type 0) : Type 0 where
  pub name : S
  pub terminal : Bool
  pub refuse : List E

pub record Transition (S E C T W : Type 0) : Type 0 where
  pub id : ℕ
  pub from : S
  pub event : E
  pub to : S
  pub guard : Option (Check S E C T W)
  pub preconditions : List (Option (Check S E C T W))
  pub issue : Option (Check S E C T W)
  pub verify : Option (Check S E C T W)

pub record Definition (S E C T W : Type 0) : Type 0 where
  pub id : ℕ
  pub states : List (State S E)
  pub events : List E
  pub initial : S
  pub transitions : List (Transition S E C T W)
  pub preconditions : List (Option (Check S E C T W))
  pub invariants : List (Option (Check S E C T W))
  pub postconditions : List (Option (Check S E C T W))
  pub reconcile : List (Option (Reconciler S E C T W))

-- compiledTransition
pub record Row (S E C T W : Type 0) : Type 0 where
  pub id : ℕ
  pub from : S
  pub event : E
  pub to : S
  pub guard : Option (Check S E C T W)
  pub preconditions : List (Check S E C T W)
  pub issue : Option (Check S E C T W)
  pub verify : Option (Check S E C T W)

pub record Machine (S E C T W : Type 0) : Type 0 where
  pub id : ℕ
  pub initial : S
  pub external : Bool
  pub states : Map S Bool
  pub events : List E
  pub refused : List (S × E)
  pub rows : Map (S × E) (List (Row S E C T W))
  pub preconditions : List (Check S E C T W)
  pub invariants : List (Check S E C T W)
  pub postconditions : List (Check S E C T W)
  pub reconcile : List (Reconciler S E C T W)
