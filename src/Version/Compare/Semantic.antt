-- ===== src/Version/Compare/Semantic.antt =====
-- The pre-release part of the comparison.
use public_pkg.Common.{
  ℕ, ◌<◌, true, false, List, [], ◌∷◌, none, some, ◌≡◌, ◌≢◌, refl, arith, Bool-cases, inl, inr,
}
use public_pkg.Common.Int.{ℤ, pos}
use public_pkg.Text.{Bytes, bytes_eq}
use public_pkg.Text.Decimal.{parse_uint}
use public_pkg.Text.Order.{bytes_lt, bytes_lt_asym, bytes_lt-ne, bytes_eq_sound}
use public_pkg.Text.Split.{split_last, Lacks}
use public_pkg.Version.{Version}
use public_pkg.Version.Compare.{
  compare_components, compare_idents, compare_pre_release, compare_internal, less_than, minus_one,
}
use public_pkg.Version.Compare.Antisymmetry.{components-negate}

-- A semantic version with a pre-release is less than one with the same numbers and none, whatever
-- their build metadata.
pre_release_below :
    (v o : Version)
    → v.semver ≡ true
    → o.semver ≡ true
    → compare_components v.components o.components ≡ pos 0
    → v.pre_release ≢ []
    → o.pre_release ≡ []
    → (less_than v o ≡ true) × (less_than o v ≡ false)
unfolding less_than compare_internal compare_pre_release
pre_release_below v o sv so same p q = ground (arith, components-negate v.components o.components)

single-compare :
    (p q : Bytes) (r : ℤ)
    → Lacks b'.' p
    → Lacks b'.' q
    → p ≢ []
    → q ≢ []
    → bytes_eq p q ≡ false
    → compare_idents (p ∷ []) (q ∷ []) ≡ r
    → compare_pre_release p q ≡ r
unfolding compare_pre_release
single-compare [] q r lp lq np nq d e = absurd (np refl)
single-compare (c ∷ p) [] r lp lq np nq d e = absurd (nq refl)
single-compare (c ∷ p) (y ∷ q) r lp lq np nq d e =
    rw (d, split_last b'.' (c ∷ p) lp, split_last b'.' (y ∷ q) lq) e

components_refl : (v : List ℕ) → compare_components v v ≡ pos 0
unfolding compare_components
components_refl [] = refl
components_refl (x ∷ v) = ground (arith, components_refl v)

-- Two semantic versions that differ in a pre-release of one identifier.
abbrev pub with_ident : Version → Bytes → Version
with_ident v p = record v { semver = true; pre_release = p }

ident_less :
    (v : Version) (p q : Bytes)
    → Lacks b'.' p
    → Lacks b'.' q
    → p ≢ []
    → q ≢ []
    → bytes_eq p q ≡ false
    → compare_idents (p ∷ []) (q ∷ []) ≡ minus_one
    → less_than (with_ident v p) (with_ident v q) ≡ true
unfolding less_than compare_internal
ident_less v p q lp lq np nq d e =
    rw (components_refl v.components, single-compare p q minus_one lp lq np nq d e)

parsed-ne-nil : (p : Bytes) (a : ℕ) → parse_uint p ≡ some a → p ≢ []
unfolding parse_uint
parsed-ne-nil [] a h e = cc
parsed-ne-nil (c ∷ p) a h e = cc

parsed-ne :
    (p q : Bytes) (a b : ℕ)
    → parse_uint p ≡ some a
    → parse_uint q ≡ some b
    → a < b
    → bytes_eq p q ≡ false
parsed-ne p q a b hp hq lt = elim (Bool-cases (bytes_eq p q)) [
  | inl e ↦ absurd (ground (arith, bytes_eq_sound p q e))
  | inr e ↦ e
]

above-ne-nil : (p q : Bytes) → bytes_lt p q ≡ true → q ≢ []
unfolding bytes_lt
above-ne-nil p [] h e = cc
above-ne-nil p (c ∷ q) h e = cc

-- Two numeric identifiers are compared as numbers, a numeric one and another as texts. So wherever a
-- text stands, in the order of texts, between a larger number and a smaller one, such as 1a between
-- 10 and 9, `LessThan` goes round in a circle: each of the three versions is less than the next.
less_than_cycle :
    (v : Version) (m n t : Bytes) (a b : ℕ)
    → Lacks b'.' m
    → Lacks b'.' n
    → Lacks b'.' t
    → parse_uint m ≡ some a
    → parse_uint n ≡ some b
    → parse_uint t ≡ none
    → a < b
    → bytes_lt n t ≡ true
    → bytes_lt t m ≡ true
    → (less_than (with_ident v m) (with_ident v n) ≡ true)
      × (less_than (with_ident v n) (with_ident v t) ≡ true)
      × (less_than (with_ident v t) (with_ident v m) ≡ true)
unfolding compare_idents
less_than_cycle v m n t a b lm ln lt pm pn pt h nt tm =
    let (hm, hn, ht) : (m ≢ []) × (n ≢ []) × (t ≢ []) =
      (parsed-ne-nil m a pm, parsed-ne-nil n b pn, above-ne-nil n t nt) in
    (
      ident_less v m n lm ln hm hn (parsed-ne m n a b pm pn h) (ground arith),
      ident_less v n t ln lt hn ht (bytes_lt-ne n t nt) (ground (arith, bytes_lt_asym n t nt)),
      ident_less v t m lt lm ht hm (bytes_lt-ne t m tm) (ground (arith, bytes_lt_asym t m tm)),
    )
