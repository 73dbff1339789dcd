-- ===== src/Version/Compare/Transitive.antt =====
-- The order of the numeric components is transitive.
use public_pkg.Common.{ℕ, ◌<◌, List, ◌≡◌, ◌≢◌, subst, sym, ◌∙◌, arith, inl, inr}
use public_pkg.Common.Int.{pos}
use public_pkg.Version.Compare.{compare_components}
use public_pkg.Version.Compare.Numbers.{
  at, SameNumbers, Precedes, compare_components-Verdict, lt_cases,
}

Precedes-irrefl : (v : List ℕ) → ¬ Precedes v v
Precedes-irrefl v (i, same, less) = omega arith

Precedes-same : (u v w : List ℕ) → Precedes u v → SameNumbers v w → Precedes u w
Precedes-same u v w (i, same, less) h = (i, (λ j lt. same j lt ∙ h j), omega (arith, h i))

Precedes-trans : (u v w : List ℕ) → Precedes u v → Precedes v w → Precedes u w
Precedes-trans u v w (i, same, less) (k, same', less') = elim (lt_cases i k) [
  | inl h ↦ (i, (λ j lt. same j lt ∙ same' j (omega arith)), omega (arith, same' i h))
  | inr (inl h) ↦ (k, (λ j lt. same j (omega arith) ∙ same' j lt), omega (arith, same k h))
  | inr (inr e) ↦ (
    i,
    (λ j lt. same j lt ∙ same' j (omega arith)),
    let there = subst (λ t. at v t < at w t) (sym e) less' in omega arith,
  )
]

above-Precedes : (u v : List ℕ) → compare_components u v ≡ pos 1 → Precedes v u
above-Precedes u v e = elim (compare_components-Verdict u v) [
  | inl (e', h) ↦ absurd (cc)
  | inr (inl (e', h)) ↦ absurd (cc)
  | inr (inr (e', h)) ↦ h
]

Precedes-not_above : (u v w : List ℕ) → Precedes u v → compare_components v w ≢ pos 1 → Precedes u w
Precedes-not_above u v w p h = elim (compare_components-Verdict v w) [
  | inl (e, same) ↦ Precedes-same u v w p same
  | inr (inl (e, q)) ↦ Precedes-trans u v w p q
  | inr (inr (e, q)) ↦ absurd (h e)
]

-- If the first list is not above the second, nor the second above the third, then the first is not
-- above the third.
pub not_above_trans :
    (u v w : List ℕ)
    → compare_components u v ≢ pos 1
    → compare_components v w ≢ pos 1
    → compare_components u w ≢ pos 1
not_above_trans u v w h h' e =
    let below = Precedes-not_above w u v (above-Precedes u w e) h in
    Precedes-irrefl w (Precedes-not_above w v w below h')
