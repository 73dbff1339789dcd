-- ===== src/Validation.antt =====
-- pkg/validation/validation.go: the methods of a custom validator that are called for a request, and
-- the required fields of a struct. What the package reflect tells of types and values is data here.
pub mod Rules
pub mod Registered
mod Examples
use Prim.Native.String
use text.Mathlib.Text.{starts_with}
use public_pkg.Common.{
  ℕ, Bool, true, false, not, ◌&&◌, ◌||◌, ◌==◌, String, List, [], ◌∷◌, Option, none, some, length,
  lookup, insert, if◌then◌else◌, str_eq,
}

-- A type of a parameter or of a result, as far as the package looks at it: `context.Context`, `error`, a
-- pointer to a type by its package and its name, or another one.
pub data GoType : Type 0 where
  context_type error_type other_type : GoType
  pointer_to : String → String → GoType

-- A method of the custom validator, bound to it: `call` is what it makes of a context and a request.
pub record Method (Rq E : Type 0) : Type 0 where
  pub name : String
  pub is_valid : Bool
  pub ins : List GoType
  pub outs : List GoType
  pub call : Rq → Option E

-- `methodType.In(1).Elem().Name()` of a method that takes a context and a pointer and has one result; the name has no
-- package.
abbrev pub request_type : List GoType → List GoType → Option String
request_type (context_type ∷ pointer_to pkg name ∷ []) (out ∷ []) = some name
request_type ins outs = none

abbrev pub returns_error : List GoType → Bool
returns_error (error_type ∷ outs) = true
returns_error outs = false

module _ {Rq E : Type 0} where
  -- The tests of one round of the loop: the name of the request type that the method is for.
  abbrev pub validates : Method Rq E → Option String
  validates m =
      if not m.is_valid || not (starts_with m.name "Validate")
      then none
      else elim (request_type m.ins m.outs) [
        | none ↦ none
        | some requested ↦
            if str_eq m.name (String.◌++◌ "Validate" requested)
            then (if returns_error m.outs then some requested else none)
            else none
      ]

  -- The loop of `extractValidationMethods`.
  unfoldable pub extract :
      List (Method Rq E) → List (String × Method Rq E) → List (String × Method Rq E)
  extract [] funcs = funcs
  extract (m ∷ methods) funcs =
      extract methods
        (elim (validates m) [ none ↦ funcs | some requested ↦ insert requested m funcs ])

  -- `NewValidator`
  unfoldable pub new_validator : List (Method Rq E) → List (String × Method Rq E)
  unfolding extract
  new_validator methods = extract methods []

  -- `Validate` of a request whose type points to a named one; nil is `none`.
  unfoldable pub validate : List (String × Method Rq E) → String → Rq → Option E
  validate registry type_name request = elim (lookup type_name registry) [
    | none ↦ none
    | some m ↦ m.call request
  ]

-- A field of a struct: whether its kind can be nil, and whether it is.
pub record FieldValue : Type 0 where
  pub nilable : Bool
  pub is_nil : Bool

-- What `reflect.ValueOf(obj)` is, and what a pointer points to.
pub data Reflected : Type 0 where
  struct pointer_to_struct : List (String × FieldValue) → Reflected
  pointer_to_other other : Reflected

-- What `ValidRequired` ends in: nil, an error, or the panic of `IsNil` on a kind that cannot be nil.
pub data Checked : Type 0 where
  all_there not_a_struct : Checked
  unknown_field missing_field panics : String → Checked

abbrev pub check_field : String → Option FieldValue → Checked → Checked
check_field field none rest = unknown_field field
check_field field (some v) rest =
    if v.nilable then (if v.is_nil then missing_field field else rest) else panics field

-- The loop over the required fields.
unfoldable pub check_fields : List (String × FieldValue) → List String → Checked
check_fields fields [] = all_there
check_fields fields (field ∷ required) =
    let rest = check_fields fields required in check_field field (lookup field fields) rest

-- `ValidRequired`
unfoldable pub valid_required : Reflected → List String → Checked
unfolding check_fields
valid_required (struct fields) required = check_fields fields required
valid_required (pointer_to_struct fields) required = check_fields fields required
valid_required pointer_to_other required = not_a_struct
valid_required other required = not_a_struct
