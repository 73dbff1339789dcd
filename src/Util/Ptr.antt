-- ===== src/Util/Ptr.antt =====
-- pkg/ptr/ptr.go. A pointer is an Option of what it points to; that a clone is a new object is not
-- visible here. AllPtrFieldsNil is reflection and is left out.
use public_pkg.Common.{Bool, true, false, Option, none, some, ◌≡◌, refl}

module _ {ℓ} {A : Type ℓ} where
  unfoldable to : A → Option A
  to v = some v

  -- The zero value of the type is the argument `zero_value`.
  unfoldable from : A → Option A → A
  from zero_value none = zero_value
  from zero_value (some v) = v

  unfoldable from_or : Option A → A → A
  from_or none def = def
  from_or (some v) def = v

  unfoldable is_nil : Option A → Bool
  is_nil none = true
  is_nil (some v) = false

  unfoldable is_not_nil : Option A → Bool
  is_not_nil none = false
  is_not_nil (some v) = true

  unfoldable clone : Option A → Option A
  clone none = none
  clone (some v) = some v

  -- The operator `==` of the type is the argument `same`.
  unfoldable equal : (A → A → Bool) → Option A → Option A → Bool
  equal same none none = true
  equal same none (some b) = false
  equal same (some a) none = false
  equal same (some a) (some b) = same a b

  unfoldable equal_to : (A → A → Bool) → Option A → A → Bool
  equal_to same none v = false
  equal_to same (some a) v = same a v

unfoldable map {ℓ κ} : {A : Type ℓ} {B : Type κ} → Option A → (A → B) → Option B
unfolding to
map none f = none
map (some v) f = to (f v)

unfoldable clone_by {ℓ} : {A : Type ℓ} → Option A → (A → A) → Option A
unfolding map
clone_by p f = map p f

-- `Equal` with a pointer to a value is `EqualTo` that value.
equal-to {ℓ} :
    {A : Type ℓ} (same : A → A → Bool) (p : Option A) (v : A)
    → equal same p (to v) ≡ equal_to same p v
unfolding equal equal_to to
equal-to same none v = refl
equal-to same (some a) v = refl
