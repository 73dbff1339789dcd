-- ===== src/Id/Examples.antt =====
-- The codes that the tests of pkg/id expect, and the theorems at ids and counters.
use public_pkg.Common.{ℕ, [], ◌∷◌, none, some, ◌≡◌, ◌≢◌, refl, arith}
use public_pkg.Text.{codes}
use public_pkg.Id.{
  new_code, encode, with_code_chars, with_code_n1, with_code_n2, with_code_l, with_code_salt,
}
use public_pkg.Id.Unique.{new_code_unique}
use public_pkg.Id.Resource.{new, resource_id_unique}

default_code : new_code 1 [] ≡ some (codes "VHB4JX86")
unfolding new_code encode
default_code = refl

code_with_options :
    new_code 1 (
      with_code_chars (codes "0123456789")
      ∷ with_code_n1 9
      ∷ with_code_n2 3
      ∷ with_code_l 5
      ∷ with_code_salt 56789
      ∷ [])
    ≡ some (codes "80773")
unfolding new_code encode
code_with_options = refl

new_code_unique_example : ◌≡◌ {A = ℕ} 7 7
new_code_unique_example = new_code_unique 7 7 (omega arith) (omega arith) refl

resource_id_unique_example : (new (codes "user") 99 3 ≢ none) × (◌≡◌ {A = ℕ} 3 3)
resource_id_unique_example =
    resource_id_unique (codes "user") 99 3 3 (omega arith) (omega arith) (omega arith) refl
