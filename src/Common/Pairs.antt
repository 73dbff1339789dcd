-- ===== src/Common/Pairs.antt =====
-- A result beside a new state: what is known of the result, put back into the pair.
use mathlib.Core.Path.{◌≡◌}

pub pair_of {ℓ κ} : {A : Type ℓ} {B : Type κ} (x : A × B) {a : A} → x.0 ≡ a → x ≡ (a, x.1)
pair_of x e = λ i. (e i, x.1)

pub triple_of {ℓ κ μ} :
    {A : Type ℓ} {B : Type κ} {C : Type μ} (x : A × B × C) {a : A} → x.0 ≡ a → x ≡ (a, x.1, x.2)
triple_of x e = λ i. (e i, x.1, x.2)
