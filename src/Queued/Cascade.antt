-- ===== src/Queued/Cascade.antt =====
-- queued/queued.go: the cascade of one root, and what a callback can do to it.
use statemachine.Prelude.{
  ℕ, ◌+◌, ◌≤◌, ◌≡◌, refl, Bool, true, false, not, Option, none, some, List, [], ◌∷◌, ◌++◌,
  append_assoc, append-nil, if◌then◌else◌, leb, length, length-append, arith,
}
use statemachine.Errors.{Error, leaf, not_running, run_limit}

pub record Item (C E T : Type 0) : Type 0 where
  pub context : C
  pub event : E
  pub payload : T

pub record Cascade (C E T : Type 0) : Type 0 where
  pub active : Bool
  pub pending : List (Item C E T)
  pub accepted : ℕ
  pub maximum : ℕ

module _ {C E T : Type 0} where
  unfoldable pub enqueue : Cascade C E T → Item C E T → Cascade C E T × Option Error
  enqueue q item =
      if not q.active
      then (q, some (leaf not_running))
      else if leb q.maximum q.accepted
      then (q, some (leaf run_limit))
      else (record q { pending = q.pending ++ item ∷ []; accepted = q.accepted + 1 }, none)

  -- next: the oldest follow-up; where there is none the cascade is over.
  unfoldable pub next : Cascade C E T → Cascade C E T × Option (Item C E T)
  next q = elim q.pending [
    | [] ↦ (record q { active = false }, none)
    | item ∷ rest ↦ (record q { pending = rest }, some item)
  ]

  unfoldable pub abort : Cascade C E T → Cascade C E T
  abort q = record q { active = false; pending = [] }

  -- A cascade with its root accepted.
  unfoldable pub start : ℕ → Cascade C E T
  start maximum = record { active = true; pending = []; accepted = 1; maximum = maximum }

  -- What a callback does to a cascade: calls of Enqueue, one after another, in this order. The
  -- list is of the items that were accepted.
  pub data Enqueues (q : Cascade C E T) : Cascade C E T → List (Item C E T) → Type 0 where
    quiet : Enqueues q q []
    more :
        {p : Cascade C E T} {items : List (Item C E T)} (item : Item C E T)
        → Enqueues q p items
        → (enqueue p item).1 ≡ none
        → Enqueues q (enqueue p item).0 (items ++ item ∷ [])
    declined :
        {p : Cascade C E T} {items : List (Item C E T)} {e : Error} (item : Item C E T)
        → Enqueues q p items
        → (enqueue p item).1 ≡ some e
        → Enqueues q (enqueue p item).0 items

  -- The number of events accepted and the room left for them.
  pub record Bounded (q : Cascade C E T) (fired : ℕ) : Type 0 where
    pub balanced : fired + length q.pending ≡ q.accepted
    pub limited : q.accepted ≤ q.maximum

  -- Accepted items go behind the pending ones, in order, and each is counted within the limit.
  pub record Extends (q p : Cascade C E T) (items : List (Item C E T)) : Type 0 where
    pub appended : p.pending ≡ q.pending ++ items
    pub counted : p.accepted ≡ q.accepted + length items
    pub same_maximum : p.maximum ≡ q.maximum
    pub same_active : p.active ≡ q.active
    pub kept : q.accepted ≤ q.maximum → p.accepted ≤ p.maximum

  enqueue-Extends :
      {q p : Cascade C E T} {items : List (Item C E T)} (item : Item C E T)
      → Extends q p items
      → (enqueue p item).1 ≡ none
      → Extends q (enqueue p item).0 (items ++ item ∷ [])
  unfolding enqueue
  enqueue-Extends {q} {p} {items} item x h = record {
    appended = ground (arith, append_assoc q.pending items (item ∷ []), x.appended);
    counted = ground (arith, x.counted, length-append items (item ∷ []));
    same_maximum = ground (arith, x.same_maximum);
    same_active = ground (arith, x.same_active);
    kept = λ le. ground (arith, x.kept le);
  }

  pub Enqueues-Extends :
      {q p : Cascade C E T} {items : List (Item C E T)} → Enqueues q p items → Extends q p items
  unfolding enqueue
  Enqueues-Extends {q} quiet = record {
    appended = ground (arith, append-nil q.pending);
    counted = omega arith;
    same_maximum = refl;
    same_active = refl;
    kept = λ le. le;
  }
  Enqueues-Extends (more item r h) = enqueue-Extends item (Enqueues-Extends r) h
  Enqueues-Extends {q} (declined {p = p} item r h) =
      let x = Enqueues-Extends r in
      record {
        appended = ground (arith, x.appended);
        counted = ground (arith, x.counted);
        same_maximum = ground (arith, x.same_maximum);
        same_active = ground (arith, x.same_active);
        kept = λ le. ground (arith, x.kept le);
      }
