-- ===== src/Validation/Rules.antt =====
-- pkg/validation/validator.go: rules for the fields of a struct, by name. What reflection says of the
-- validated value is the argument.
pub mod Fields
mod Examples
use public_pkg.Common.{Bool, String, List, [], ◌∷◌, Option, none, some, lookup, if◌then◌else◌}

-- What a field holds: a nil pointer, what its pointer points to, or a value.
pub data Content (V : Type 0) : Type 0 where
  nil_pointer : Content V
  pointer_to value : V → Content V

pub record Field (V : Type 0) : Type 0 where
  pub is_exported : Bool
  pub content : Content V

-- The value: a struct with its fields, or a pointer to one, which may be nil; or something else.
pub data Object (V : Type 0) : Type 0 where
  struct pointer_to_struct nil_struct : List (String × Field V) → Object V
  other nil : Object V

-- A call that returns: no error, that it is no struct, or the error of a rule; or a panic of reflection.
pub data Validated (E : Type 0) : Type 0 where
  valid not_a_struct panicked : Validated E
  invalid : E → Validated E

abbrev pub Rules : Type 0 → Type 0 → Type 0
Rules V E = String → Option (V → Option E)

module _ {V : Type 0} where
  -- The loop of `GetExportedFieldNames`.
  unfoldable pub exported_names : List (String × Field V) → List String
  exported_names [] = []
  exported_names ((name, f) ∷ all) =
      let rest = exported_names all in if f.is_exported then name ∷ rest else rest

  -- `GetExportedFieldNames`; `none` is a panic.
  unfoldable pub get_exported_field_names : Object V → Option (List String)
  unfolding exported_names
  get_exported_field_names (struct all) = some (exported_names all)
  get_exported_field_names (pointer_to_struct all) = some (exported_names all)
  get_exported_field_names (nil_struct all) = some (exported_names all)
  get_exported_field_names other = some []
  get_exported_field_names nil = none

module _ {V E : Type 0} where
  abbrev pub apply_rule : Rules V E → String → V → Option E
  apply_rule rules field v = elim (rules field) [ none ↦ none | some validator ↦ validator v ]

  -- One round for a field that is there.
  abbrev pub check_content : Rules V E → String → Content V → Option E
  check_content rules field nil_pointer = none
  check_content rules field (pointer_to v) = apply_rule rules field v
  check_content rules field (value v) = apply_rule rules field v

  abbrev pub field_error : Rules V E → String → Option (Field V) → Option E
  field_error rules field none = none
  field_error rules field (some f) =
      if f.is_exported then check_content rules field f.content else none

  -- The loop of `ValidateSelectedFields`.
  unfoldable pub check_selected : Rules V E → List (String × Field V) → List String → Validated E
  check_selected rules all [] = valid
  check_selected rules all (field ∷ fields) = elim (field_error rules field (lookup field all)) [
    | none ↦ check_selected rules all fields
    | some e ↦ invalid e
  ]

  -- The loop for a nil pointer to a struct, which panics at the first field that is there.
  abbrev pub check_nil : List (String × Field V) → List String → Validated E
  check_nil all [] = valid
  check_nil all (field ∷ fields) = elim (lookup field all) [
    | none ↦ check_nil all fields
    | some f ↦ if f.is_exported then panicked else check_nil all fields
  ]

  -- `ValidateSelectedFields`
  unfoldable pub validate_selected_fields : Object V → Rules V E → List String → Validated E
  unfolding check_selected
  validate_selected_fields (struct all) rules fields = check_selected rules all fields
  validate_selected_fields (pointer_to_struct all) rules fields = check_selected rules all fields
  validate_selected_fields (nil_struct all) rules fields = check_nil all fields
  validate_selected_fields other rules fields = not_a_struct
  validate_selected_fields nil rules fields = panicked

  -- `ValidateAllFields`
  unfoldable pub validate_all_fields : Object V → Rules V E → Validated E
  unfolding validate_selected_fields get_exported_field_names
  validate_all_fields obj rules = elim (get_exported_field_names obj) [
    | none ↦ panicked
    | some fields ↦ validate_selected_fields obj rules fields
  ]
