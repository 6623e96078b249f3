-- ===== src/Queued/Runtime.antt =====
-- queued/queued.go: the critical sections of a Runtime's scheduler, and their interleavings. A root
-- is named by a number.
use statemachine.Prelude.{
  ℕ, ◌+◌, ◌-◌, ◌==◌, Bool, true, false, Option, none, some, List, [], ◌∷◌, ◌++◌, if◌then◌else◌, leb,
}
use statemachine.Errors.{Error, leaf, root_limit, invalid_limits, Result, ok, err}

-- Limits that are not positive are 0 here.
pub record Limits : Type 0 where
  pub max_roots : ℕ
  pub max_run_events : ℕ

abbrev pub default_limits : Limits
default_limits = record { max_roots = 1024; max_run_events = 4096 }

-- The fields of a Runtime that its scheduler reads and changes.
pub record Runtime : Type 0 where
  pub roots : List ℕ
  pub running : Bool
  pub limits : Limits
  pub root_count : ℕ

-- newRuntime, and the zero Runtime with zero limits.
abbrev pub new_runtime : Limits → Runtime
new_runtime limits = record { roots = []; running = false; limits = limits; root_count = 0 }

-- NewWithLimits
unfoldable pub new_with_limits : Limits → Result Error Runtime
new_with_limits l =
    if leb l.max_roots 0
    then err (leaf invalid_limits)
    else if leb l.max_run_events 0
    then err (leaf invalid_limits)
    else ok (new_runtime l)

-- NewWithOptions: no limits at all select the defaults.
unfoldable pub new_with_options : Limits → Result Error Runtime
unfolding new_with_limits
new_with_options l =
    if l.max_roots == 0
    then (if l.max_run_events == 0 then new_with_limits default_limits else new_with_limits l)
    else new_with_limits l

-- The limits in force.
abbrev pub limits_of : Runtime → Limits
limits_of r = if r.limits.max_roots == 0 then default_limits else r.limits

-- What the admission section of Fire decides.
pub data Admission : Type 0 where
  rejected : Error → Admission
  queued : Admission
  starts_drain : Admission

unfoldable pub admit : Runtime → ℕ → Runtime × Admission
admit r root =
    let limited = record r { limits = limits_of r } in
    if leb (limits_of r).max_roots r.root_count then (limited, rejected (leaf root_limit)) else (
      record limited {
        roots = r.roots ++ root ∷ [];
        root_count = r.root_count + 1;
        running = true;
      },
      if r.running then queued else starts_drain,
    )

-- removeRootLocked
unfoldable pub remove_root : List ℕ → ℕ → Option (List ℕ)
remove_root [] root = none
remove_root (x ∷ xs) root =
    let rest = remove_root xs root in
    if x == root then some xs else elim rest [ none ↦ none | some ys ↦ some (x ∷ ys) ]

-- The section of Fire for a context that is done while the root waits.
unfoldable pub cancel : Runtime → ℕ → Runtime × Bool
cancel r root = elim (remove_root r.roots root) [
  | none ↦ (r, false)
  | some rest ↦ (record r { roots = rest; root_count = r.root_count - 1 }, true)
]

-- The first section of drain: the oldest root, or the end of the goroutine.
unfoldable pub take_root : Runtime → Runtime × Option ℕ
take_root r = elim r.roots [
  | [] ↦ (record r { running = false; roots = [] }, none)
  | root ∷ rest ↦ (record r { roots = rest }, some root)
]

-- The second section of drain.
unfoldable pub complete : Runtime → Runtime
complete r = record r { root_count = r.root_count - 1 }
