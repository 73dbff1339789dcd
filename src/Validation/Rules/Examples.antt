-- ===== src/Validation/Rules/Examples.antt =====
-- A struct with a name, an age behind a nil pointer and a hidden field.
use public_pkg.Common.{
  ℕ, true, false, String, List, [], ◌∷◌, none, some, ◌≡◌, refl, lookup, ◌==◌, if◌then◌else◌,
}
use public_pkg.Validation.Rules.{
  Field, Rules, invalid, struct, pointer_to_struct, nil_pointer, value, validate_all_fields,
}
use public_pkg.Validation.Rules.Fields.{Judged, validate_all_fields-Judged}

-- Every rule wants a number other than 0.
abbrev nonzero : Rules ℕ String
nonzero name = some (λ v. if v == 0 then some name else none)

abbrev person : List (String × Field ℕ)
person =
    ("Name", record { is_exported = true; content = value 0 })
    ∷ ("Age", record { is_exported = true; content = nil_pointer })
    ∷ ("secret", record { is_exported = false; content = value 0 })
    ∷ []

-- The first field is refused.
refused : validate_all_fields (struct person) nonzero ≡ invalid "Name"
unfolding validate_all_fields lookup
refused = refl

validate_all_fields-Judged_example :
    Judged nonzero person (validate_all_fields (struct person) nonzero)
    × Judged nonzero person (validate_all_fields (pointer_to_struct person) nonzero)
unfolding lookup
validate_all_fields-Judged_example =
    validate_all_fields-Judged nonzero person (refl, (refl, (refl, tt)))
