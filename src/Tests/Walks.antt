-- ===== src/Tests/Walks.antt =====
-- Key types at concrete inputs.
use statemachine.Prelude.{◌≡◌, refl, true, false, ◌&&◌}
use statemachine.Keys.Walk.{
  GoType, plain, floating, array, struct, end, field, GoValue, exact, float, items, parts,
  none_left, item, no_part, part, strict, reflexive, comparable_value, self_equal,
  strict-comparable_value,
}

-- struct { A [1]int; _ float64 }, with a NaN in the blank field.
abbrev key_type : GoType
key_type = struct (field false (array 1 plain) (field true floating end))

abbrev key_value : GoValue key_type
key_value = parts (part false (items (item (exact 5) none_left)) (part true (float true) no_part))

key_type-strict : strict key_type ≡ true
unfolding strict
key_type-strict = refl

strict-comparable_value_example :
    (comparable_value key_value ≡ true)
    × (reflexive key_type ≡ true → (comparable_value key_value && self_equal key_value) ≡ true)
strict-comparable_value_example = strict-comparable_value key_value key_type-strict
