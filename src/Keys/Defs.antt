-- ===== src/Keys/Defs.antt =====
-- Go's == on a comparable type, with what keycheck answers about the type and its values.
use statemachine.Prelude.{◌≡◌, Bool, true, ◌&&◌, ◌||◌, arith}

-- `beq` is Go's ==, `comparable` is reflect's Comparable, and the two flags are StrictType and
-- ReflexiveType. The laws hold of Go's ==, up to the values that it identifies.
pub record Key (K : Type 0) : Type 0 where
  pub beq : K → K → Bool
  pub comparable : K → Bool
  pub strict_type : Bool
  pub reflexive_type : Bool
  pub beq-eq : (a b : K) → beq a b ≡ true → a ≡ b
  pub reflexive_all : (a : K) → reflexive_type ≡ true → (comparable a ≡ true) × (beq a a ≡ true)

module _ {K : Type 0} ⦃k : Key K⦄ where
  -- keycheck.Value
  abbrev pub value : K → Bool
  value a = k.comparable a && k.beq a a

  -- The check that a caller makes unless the whole type is reflexive.
  abbrev pub checked : K → Bool
  checked a = k.reflexive_type || value a

  pub reflexive-value : (a : K) → checked a ≡ true → value a ≡ true
  reflexive-value a h = ground (arith, k.reflexive_all a)

  pub value_self : (a : K) → value a ≡ true → k.beq a a ≡ true
  value_self a h = ground arith

-- A struct of two keys is compared field by field.
pub both-eq :
    {A B : Type 0} ⦃k : Key A⦄ ⦃l : Key B⦄ (p q : A × B)
    → (k.beq p.0 q.0 && l.beq p.1 q.1) ≡ true
    → p ≡ q
both-eq ⦃k⦄ ⦃l⦄ (a, b) (c, d) h = ground (arith, k.beq-eq a c, l.beq-eq b d)

pub both-reflexive :
    {A B : Type 0} ⦃k : Key A⦄ ⦃l : Key B⦄ (p : A × B)
    → (k.reflexive_type && l.reflexive_type) ≡ true
    → ((k.comparable p.0 && l.comparable p.1) ≡ true) × ((k.beq p.0 p.0 && l.beq p.1 p.1) ≡ true)
both-reflexive ⦃k⦄ ⦃l⦄ (a, b) h = ground (arith, k.reflexive_all a, l.reflexive_all b)

instance abbrev pub both_key : {A B : Type 0} ⦃k : Key A⦄ ⦃l : Key B⦄ → Key (A × B)
both_key ⦃k⦄ ⦃l⦄ = record {
  beq = λ p q. k.beq p.0 q.0 && l.beq p.1 q.1;
  comparable = λ p. k.comparable p.0 && l.comparable p.1;
  strict_type = k.strict_type && l.strict_type;
  reflexive_type = k.reflexive_type && l.reflexive_type;
  beq-eq = both-eq;
  reflexive_all = both-reflexive;
}
