-- ===== src/Validation/Examples.antt =====
-- The theorems about validation at a custom validator with two methods, of which one has a wrong name.
use public_pkg.Common.{
  ℕ, true, false, String, List, [], ◌∷◌, none, some, ◌≡◌, ap, ◌↔◌, inl, inr, lookup, eq_iff, arith,
}
use public_pkg.Validation.{Method, context_type, error_type, pointer_to, new_validator, FieldValue}
use public_pkg.Validation.Registered.{IsOneOf, IsFor, new_validator_registers}

abbrev method : String → Method ℕ String
method name = record {
  name = name;
  is_valid = true;
  ins = context_type ∷ pointer_to "api" "Create" ∷ [];
  outs = error_type ∷ [];
  call = λ n. none;
}

abbrev methods : List (Method ℕ String)
methods = method "ValidateCreate" ∷ method "ValidateNew" ∷ []

one_create :
    (m : Method ℕ String)
    → IsOneOf m methods
    → m.name ≡ "ValidateCreate"
    → m ≡ method "ValidateCreate"
one_create m (inl e) h = e
one_create m (inr (inl e)) h =
    absurd (
      ground (arith, eq_iff "ValidateNew" "ValidateCreate", ap (λ (x : Method ℕ String). x.name) e))
one_create m (inr (inr e)) h = absurd e

new_validator_registers_example :
    (lookup "Create" (new_validator methods) ≡ some (method "ValidateCreate"))
    ↔ (IsOneOf (method "ValidateCreate") methods × IsFor "Create" (method "ValidateCreate"))
new_validator_registers_example =
    new_validator_registers methods "Create" (method "ValidateCreate") one_create

abbrev fields : List (String × FieldValue)
fields =
    ("Name", record { nilable = true; is_nil = false })
    ∷ ("Age", record { nilable = false; is_nil = false })
    ∷ []
