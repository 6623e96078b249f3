-- ===== src/Keys/Walk.antt =====
-- internal/keycheck/keycheck.go: the walks over a key type, and what they say of its values. A type
-- is what reflect shows of it: its kind, and the parts of arrays and structs. Go's comparison is the
-- language's: NaN equals nothing, a pointer is its identity, blank fields are not compared, and an
-- interface that holds a slice, a map or a function cannot be compared.
use statemachine.Prelude.{ℕ, suc, ◌==◌, ◌≡◌, refl, Bool, true, false, not, ◌&&◌, ◌||◌, arith}

-- `plain` is every kind that the walks do not look at: integers, strings, pointers and the like.
mutual
  pub data GoType : Type 0 where
    plain floating complex interface : GoType
    array : ℕ → GoType → GoType
    struct : Fields → GoType

  -- The fields of a struct, and whether each is named `_`.
  pub data Fields : Type 0 where
    end : Fields
    field : Bool → GoType → Fields → Fields

unfoldable mutual
  pub reflexive : GoType → Bool
  reflexive plain = true
  reflexive floating = false
  reflexive complex = false
  reflexive interface = false
  reflexive (array n t) = n == 0 || reflexive t
  reflexive (struct fs) = reflexive_fields fs

  pub reflexive_fields : Fields → Bool
  reflexive_fields end = true
  reflexive_fields (field blank t fs) = (blank || reflexive t) && reflexive_fields fs

unfoldable mutual
  pub strict : GoType → Bool
  strict plain = true
  strict floating = true
  strict complex = true
  strict interface = false
  strict (array n t) = strict t
  strict (struct fs) = strict_fields fs

  pub strict_fields : Fields → Bool
  strict_fields end = true
  strict_fields (field blank t fs) = strict t && strict_fields fs

-- A value of a type. A floating or complex value says whether a NaN is in it.
mutual
  pub data GoValue : GoType → Type 0 where
    exact : ℕ → GoValue plain
    float : Bool → GoValue floating
    pair : Bool → Bool → GoValue complex
    nil_interface : GoValue interface
    boxed : (t : GoType) → GoValue t → GoValue interface
    uncomparable : GoValue interface
    items : {n : ℕ} {t : GoType} → Items n t → GoValue (array n t)
    parts : {fs : Fields} → Parts fs → GoValue (struct fs)

  pub data Items : ℕ → GoType → Type 0 where
    none_left : {t : GoType} → Items 0 t
    item : {n : ℕ} {t : GoType} → GoValue t → Items n t → Items (suc n) t

  pub data Parts : Fields → Type 0 where
    no_part : Parts end
    part :
        {t : GoType} {fs : Fields} (blank : Bool) → GoValue t → Parts fs → Parts (field blank t fs)

-- reflect's Value.Comparable: no part that is compared holds something that cannot be.
unfoldable mutual
  pub comparable_value : {t : GoType} → GoValue t → Bool
  comparable_value (exact n) = true
  comparable_value (float is_nan) = true
  comparable_value (pair real imaginary) = true
  comparable_value nil_interface = true
  comparable_value (boxed t v) = comparable_value v
  comparable_value uncomparable = false
  comparable_value (items is) = comparable_items is
  comparable_value (parts ps) = comparable_parts ps

  pub comparable_items : {n : ℕ} {t : GoType} → Items n t → Bool
  comparable_items none_left = true
  comparable_items (item v is) = comparable_value v && comparable_items is

  pub comparable_parts : {fs : Fields} → Parts fs → Bool
  comparable_parts no_part = true
  comparable_parts (part blank v ps) = comparable_value v && comparable_parts ps

-- value == value, for a value that can be compared.
unfoldable mutual
  pub self_equal : {t : GoType} → GoValue t → Bool
  self_equal (exact n) = n == n
  self_equal (float is_nan) = not is_nan
  self_equal (pair real imaginary) = not real && not imaginary
  self_equal nil_interface = true
  self_equal (boxed t v) = self_equal v
  self_equal uncomparable = false
  self_equal (items is) = self_equal_items is
  self_equal (parts ps) = self_equal_parts ps

  pub self_equal_items : {n : ℕ} {t : GoType} → Items n t → Bool
  self_equal_items none_left = true
  self_equal_items (item v is) = self_equal v && self_equal_items is

  pub self_equal_parts : {fs : Fields} → Parts fs → Bool
  self_equal_parts no_part = true
  self_equal_parts (part blank v ps) = (blank || self_equal v) && self_equal_parts ps

mutual
  unfolding comparable_value strict

  strict_value : {t : GoType} (v : GoValue t) → strict t ≡ true → comparable_value v ≡ true
  strict_value (exact n) h = refl
  strict_value (float b) h = refl
  strict_value (pair a b) h = refl
  strict_value nil_interface h = refl
  strict_value (boxed t v) h = absurd (ground (arith, h))
  strict_value uncomparable h = absurd (ground (arith, h))
  strict_value (items is) h = strict_items is h
  strict_value (parts ps) h = strict-Parts ps h

  strict_items :
      {n : ℕ} {t : GoType} (is : Items n t) → strict t ≡ true → comparable_items is ≡ true
  strict_items none_left h = refl
  strict_items (item v is) h = ground (arith, strict_value v h, strict_items is h)

  strict-Parts :
      {fs : Fields} (ps : Parts fs) → strict_fields fs ≡ true → comparable_parts ps ≡ true
  strict-Parts no_part h = refl
  strict-Parts (part {t} {fs} blank v ps) h =
      ground (arith, strict_value v (ground (arith, h)), strict-Parts ps (ground (arith, h)))

mutual
  unfolding self_equal reflexive

  reflexive_value : {t : GoType} (v : GoValue t) → reflexive t ≡ true → self_equal v ≡ true
  reflexive_value (exact n) h = ground arith
  reflexive_value (float b) h = absurd (ground (arith, h))
  reflexive_value (pair a b) h = absurd (ground (arith, h))
  reflexive_value nil_interface h = refl
  reflexive_value (boxed t v) h = absurd (ground (arith, h))
  reflexive_value uncomparable h = absurd (ground (arith, h))
  reflexive_value (items {n} {t} is) h = reflexive_items is h
  reflexive_value (parts ps) h = reflexive-Parts ps h

  reflexive_items :
      {n : ℕ} {t : GoType} (is : Items n t)
      → (n == 0 || reflexive t) ≡ true
      → self_equal_items is ≡ true
  reflexive_items none_left h = refl
  reflexive_items (item {n} {t} v is) h =
      let r : reflexive t ≡ true = ground (arith, h) in
      ground (arith, reflexive_value v r, reflexive_items is (ground (arith, r)))

  reflexive-Parts :
      {fs : Fields} (ps : Parts fs) → reflexive_fields fs ≡ true → self_equal_parts ps ≡ true
  reflexive-Parts no_part h = refl
  reflexive-Parts (part {t} {fs} true v ps) h = reflexive-Parts ps h
  reflexive-Parts (part {t} {fs} false v ps) h =
      ground (arith, reflexive_value v (ground (arith, h)), reflexive-Parts ps (ground (arith, h)))

-- StrictType keeps every value comparable, so that a comparison does not panic; where ReflexiveType
-- holds as well, every value passes the check of Value, so that callers may leave it out.
pub strict-comparable_value :
    {t : GoType} (v : GoValue t)
    → strict t ≡ true
    → (comparable_value v ≡ true)
      × (reflexive t ≡ true → (comparable_value v && self_equal v) ≡ true)
strict-comparable_value v h =
    (strict_value v h, λ r. ground (arith, strict_value v h, reflexive_value v r))
