-- ===== src/Id/Places.antt =====
-- The second loop of `NewCode` can be undone where its places reach every index.
use native.Mathlib.Nat.{mod-lt, mod-eq_of_lt}
use public_pkg.Common.{
  ℕ, zero, suc, ◌+◌, ◌*◌, ◌%◌, ◌/◌, ◌≤◌, ◌<◌, List, [], ◌∷◌, ◌≡◌, ◌≢◌, refl, sym, ◌∙◌, ap, subst,
  arith, All, get_or, length,
}
use public_pkg.Id.{CodeOptions, slot, diffuse, indices, place, confuse}

-- The characters differ from one another.
abbrev pub IsDistinct : List ℕ → Type 0
IsDistinct [] = Unit
IsDistinct (x ∷ xs) = All (λ y. x ≢ y) xs × IsDistinct xs

get_or_All : (P : ℕ → Type 0) (xs : List ℕ) (i : ℕ) → All P xs → i < length xs → P (get_or xs i 0)
get_or_All P [] i h lt = absurd (omega arith)
get_or_All P (x ∷ xs) zero h lt = h.0
get_or_All P (x ∷ xs) (suc i) h lt = get_or_All P xs i h.1 (omega arith)

get_or-injective :
    (xs : List ℕ) (i j : ℕ)
    → IsDistinct xs
    → i < length xs
    → j < length xs
    → get_or xs i 0 ≡ get_or xs j 0
    → i ≡ j
get_or-injective [] i j d hi hj e = absurd (omega arith)
get_or-injective (x ∷ xs) zero zero d hi hj e = refl
get_or-injective (x ∷ xs) zero (suc j) d hi hj e =
    absurd (get_or_All (λ y. x ≢ y) xs j d.0 (omega arith) e)
get_or-injective (x ∷ xs) (suc i) zero d hi hj e =
    absurd (get_or_All (λ y. x ≢ y) xs i d.0 (omega arith) (sym e))
get_or-injective (x ∷ xs) (suc i) (suc j) d hi hj e =
    ap suc (get_or-injective xs i j d.1 (omega arith) (omega arith) e)

-- Round `k` from round `i` on writes the character of its place.
confuse-get :
    (o : CodeOptions) (s t : List ℕ) (i n k : ℕ)
    → confuse o s i n ≡ confuse o t i n
    → k < n
    → get_or o.chars (get_or s (place o (i + k)) 0) 0
      ≡ get_or o.chars (get_or t (place o (i + k)) 0) 0
unfolding confuse
confuse-get o s t i zero k e h = absurd (omega arith)
confuse-get o s t i (suc n) zero e h = let same : i + 0 ≡ i = omega arith in rw same (cc)
confuse-get o s t i (suc n) (suc k) e h =
    let next : i + suc k ≡ suc i + k = omega arith in
    rw next (confuse-get o s t (suc i) n k (cc) (omega arith))

pub length-diffuse : (c first i n x : ℕ) → length (diffuse c first i n x) ≡ n
unfolding diffuse
length-diffuse c first i zero x = refl
length-diffuse c first i (suc n) x = ap suc (length-diffuse c first (suc i) n (x / c))

diffuse_below : (c first i n x : ℕ) → 0 < c → c ≤ 255 → All (λ d. d < c) (diffuse c first i n x)
unfolding diffuse
diffuse_below c first i zero x pos small = tt
diffuse_below c first i (suc n) x pos small =
    (slot_below, diffuse_below c first (suc i) n (x / c) pos small)
  where
    slot_below : slot c first i x < c
    slot_below =
        rw (mod-eq_of_lt {n = c} {m = 256} (omega arith))
          (mod-lt ((x % c % 256 + i % 256 * first % 256) % 256) pos)

eq_of_get :
    (s t : List ℕ)
    → length s ≡ length t
    → ((j : ℕ) → j < length s → get_or s j 0 ≡ get_or t j 0)
    → s ≡ t
eq_of_get [] [] l h = refl
eq_of_get (x ∷ s) [] l h = absurd (omega arith)
eq_of_get [] (y ∷ t) l h = absurd (omega arith)
eq_of_get (x ∷ s) (y ∷ t) l h =
    cc (h 0 (omega arith), eq_of_get s t (omega arith) (λ j lt. h (suc j) (omega arith)))

-- Every index below the length is the place of some round.
abbrev pub Reaches : CodeOptions → Type 0
Reaches o = (j : ℕ) → j < o.l → (i : ℕ) × (i < o.l) × (place o i ≡ j)

pub confuse-injective :
    (o : CodeOptions) (x y : ℕ)
    → 0 < length o.chars
    → length o.chars ≤ 255
    → IsDistinct o.chars
    → Reaches o
    → confuse o (indices (length o.chars) o.l x) 0 o.l
      ≡ confuse o (indices (length o.chars) o.l y) 0 o.l
    → indices (length o.chars) o.l x ≡ indices (length o.chars) o.l y
unfolding indices
confuse-injective o x y pos small distinct reaches e =
    eq_of_get s t (length-diffuse c _ 0 o.l x ∙ sym (length-diffuse c _ 0 o.l y))
      (λ j lt. at j (subst (λ m. j < m) (length-diffuse c _ 0 o.l x) lt))
  where
    c : ℕ
    c = length o.chars

    s : List ℕ
    s = diffuse c (slot c 0 0 x) 0 o.l x

    t : List ℕ
    t = diffuse c (slot c 0 0 y) 0 o.l y

    entry_below : (z first j : ℕ) → j < o.l → get_or (diffuse c first 0 o.l z) j 0 < c
    entry_below z first j lt =
        get_or_All (λ d. d < c) (diffuse c first 0 o.l z) j
          (diffuse_below c first 0 o.l z pos small)
          (subst (λ m. j < m) (sym (length-diffuse c first 0 o.l z)) lt)

    at : (j : ℕ) → j < o.l → get_or s j 0 ≡ get_or t j 0
    at j lt =
        let (i, below, there) = reaches j lt in
        get_or-injective o.chars (get_or s j 0) (get_or t j 0) distinct
          (entry_below x (slot c 0 0 x) j lt) (entry_below y (slot c 0 0 y) j lt)
          (subst (λ p. get_or o.chars (get_or s p 0) 0 ≡ get_or o.chars (get_or t p 0) 0)
            (ap (place o) (let z : 0 + i ≡ i = omega arith in z) ∙ there)
            (confuse-get o s t 0 o.l i e below))
