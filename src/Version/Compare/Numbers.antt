-- ===== src/Version/Compare/Numbers.antt =====
-- The numeric components are compared as if zeros without end stood behind them: the first
-- difference decides.
use public_pkg.Common.{
  ℕ, zero, suc, ◌<◌, true, false, List, [], ◌∷◌, ◌≡◌, refl, sym, arith, get_or, ◌⊎◌, inl, inr,
  Bool-cases, subst,
}
use public_pkg.Common.Int.{ℤ, pos}
use public_pkg.Version.Compare.{compare_components, only_zeros, minus_one}

-- The component at a place, 0 where there is none.
abbrev pub at : List ℕ → ℕ → ℕ
at v i = get_or v i 0

-- No place differs.
abbrev pub SameNumbers : List ℕ → List ℕ → Type 0
SameNumbers v o = (i : ℕ) → at v i ≡ at o i

-- At the first place that differs, `v` has less.
abbrev pub Precedes : List ℕ → List ℕ → Type 0
Precedes v o = (i : ℕ) × ((j : ℕ) → j < i → at v j ≡ at o j) × (at v i < at o i)

pub lt_cases : (x y : ℕ) → (x < y) ⊎ ((y < x) ⊎ (x ≡ y))
lt_cases x y = omega arith

same_cons : (x y : ℕ) (v o : List ℕ) → x ≡ y → SameNumbers v o → SameNumbers (x ∷ v) (y ∷ o)
same_cons x y v o e h zero = e
same_cons x y v o e h (suc i) = h i

agree_cons :
    (x y : ℕ) (v o : List ℕ) (i : ℕ)
    → x ≡ y
    → ((j : ℕ) → j < i → at v j ≡ at o j)
    → (j : ℕ) → j < suc i
    → at (x ∷ v) j ≡ at (y ∷ o) j
agree_cons x y v o i e h zero lt = e
agree_cons x y v o i e h (suc j) lt = h j (omega arith)

Precedes-cons : (x y : ℕ) (v o : List ℕ) → x ≡ y → Precedes v o → Precedes (x ∷ v) (y ∷ o)
Precedes-cons x y v o e (i, same, less) = (suc i, agree_cons x y v o i e same, less)

Precedes-head : (x y : ℕ) (v o : List ℕ) → x < y → Precedes (x ∷ v) (y ∷ o)
Precedes-head x y v o h = (0, λ j lt. absurd (omega arith), h)

only_zeros-same : (v : List ℕ) → only_zeros v ≡ true → SameNumbers v []
unfolding only_zeros
only_zeros-same [] h i = refl
only_zeros-same (x ∷ v) h zero = ground arith
only_zeros-same (x ∷ v) h (suc i) = only_zeros-same v (ground arith) i

agree_zeros :
    (v : List ℕ) (i : ℕ)
    → ((j : ℕ) → j < i → at [] j ≡ at v j)
    → (j : ℕ) → j < suc i
    → at [] j ≡ at (0 ∷ v) j
agree_zeros v i h zero lt = refl
agree_zeros v i h (suc j) lt = h j (omega arith)

-- A list that is not all zeros has a first place that is not.
not_zeros-Precedes : (v : List ℕ) → only_zeros v ≡ false → Precedes [] v
unfolding only_zeros
not_zeros-Precedes [] h = absurd (cc)
not_zeros-Precedes (zero ∷ v) h =
    let (i, same, less) = not_zeros-Precedes v h in (suc i, agree_zeros v i same, less)
not_zeros-Precedes (suc x ∷ v) h = (0, (λ j lt. absurd (omega arith)), omega arith)

-- What a result of the comparison says of the numbers.
abbrev pub Verdict : List ℕ → List ℕ → ℤ → Type 0
Verdict v o r =
    ((r ≡ pos 0) × SameNumbers v o)
    ⊎ (((r ≡ minus_one) × Precedes v o) ⊎ ((r ≡ pos 1) × Precedes o v))

Verdict-cons : (x : ℕ) (v o : List ℕ) (r : ℤ) → Verdict v o r → Verdict (x ∷ v) (x ∷ o) r
Verdict-cons x v o r (inl (e, h)) = inl (e, same_cons x x v o refl h)
Verdict-cons x v o r (inr (inl (e, h))) = inr (inl (e, Precedes-cons x x v o refl h))
Verdict-cons x v o r (inr (inr (e, h))) = inr (inr (e, Precedes-cons x x o v refl h))

-- The comparison of the components is 0 when no place differs, -1 when at the first place that
-- differs the first list has less, and 1 when there the second has less, where places without a
-- component count as 0.
pub compare_components-Verdict : (v o : List ℕ) → Verdict v o (compare_components v o)
unfolding compare_components
compare_components-Verdict [] [] = inl (refl, λ i. refl)
compare_components-Verdict (x ∷ v) [] = elim (Bool-cases (only_zeros (x ∷ v))) [
  | inl e ↦ inl (ground arith, only_zeros-same (x ∷ v) e)
  | inr e ↦ inr (inr (ground arith, not_zeros-Precedes (x ∷ v) e))
]
compare_components-Verdict [] (y ∷ o) = elim (Bool-cases (only_zeros (y ∷ o))) [
  | inl e ↦ inl (ground arith, λ i. sym (only_zeros-same (y ∷ o) e i))
  | inr e ↦ inr (inl (ground arith, not_zeros-Precedes (y ∷ o) e))
]
compare_components-Verdict (x ∷ v) (y ∷ o) = elim (lt_cases x y) [
  | inl h ↦ inr (inl (ground arith, Precedes-head x y v o h))
  | inr (inl h) ↦ inr (inr (ground arith, Precedes-head y x o v h))
  | inr (inr e) ↦ rw e (
      subst (Verdict (y ∷ v) (y ∷ o)) (ground arith)
        (Verdict-cons y v o _ (compare_components-Verdict v o)))
]
