-- ===== src/Version/Compare/Antisymmetry.antt =====
-- Turning a comparison round turns its sign.
use public_pkg.Common.{ℕ, true, not, List, [], ◌∷◌, Option, none, some, ◌≡◌, refl, arith, ◌⊎◌}
use public_pkg.Common.Int.{ℤ, pos_part, neg_part, sub_ℕ}
use public_pkg.Text.{Bytes}
use public_pkg.Text.Decimal.{parse_uint}
use public_pkg.Text.Order.{bytes_lt_asym, bytes_eq_sym}
use public_pkg.Text.Split.{split}
use public_pkg.Version.{Version}
use public_pkg.Version.Compare.{
  compare_components, compare_text, compare_parsed, compare_idents, compare_pre_release,
  compare_internal, at_least, less_than,
}

abbrev pub negate : ℤ → ℤ
negate a = sub_ℕ (neg_part a) (pos_part a)

pub components-negate : (v o : List ℕ) → compare_components o v ≡ negate (compare_components v o)
unfolding compare_components
components-negate [] [] = refl
components-negate (x ∷ v) [] = ground arith
components-negate [] (y ∷ o) = ground arith
components-negate (x ∷ v) (y ∷ o) = ground (arith, components-negate v o)

text-negate : (p q : Bytes) (r : ℤ) → compare_text q p (negate r) ≡ negate (compare_text p q r)
text-negate p q r = ground (arith, bytes_lt_asym p q, bytes_lt_asym q p)

parsed-negate :
    (p q : Bytes) (m n : Option ℕ) (r : ℤ)
    → compare_parsed q p n m (negate r) ≡ negate (compare_parsed p q m n r)
parsed-negate p q (some m) (some n) r = ground arith
parsed-negate p q (some m) none r = text-negate p q r
parsed-negate p q none (some n) r = text-negate p q r
parsed-negate p q none none r = text-negate p q r

idents-negate : (ps qs : List Bytes) → compare_idents qs ps ≡ negate (compare_idents ps qs)
unfolding compare_idents
idents-negate [] [] = refl
idents-negate (p ∷ ps) [] = refl
idents-negate [] (q ∷ qs) = refl
idents-negate (p ∷ ps) (q ∷ qs) =
    rw (idents-negate ps qs)
      (parsed-negate p q (parse_uint p) (parse_uint q) (compare_idents ps qs))

pre_release-negate : (p q : Bytes) → compare_pre_release q p ≡ negate (compare_pre_release p q)
unfolding compare_pre_release
pre_release-negate p q =
    ground (arith, bytes_eq_sym p q, idents-negate (split b'.' p) (split b'.' q))

-- Comparing two versions in the other order gives the opposite result, whatever their kinds.
pub compare_internal-negate : (v o : Version) → compare_internal o v ≡ negate (compare_internal v o)
unfolding compare_internal
compare_internal-negate v o = ground (
  arith,
  components-negate v.components o.components,
  pre_release-negate v.pre_release o.pre_release,
)

-- `AtLeast` is the opposite of `LessThan`, and of two versions at least one is at least the other.
pub at_least_total :
    (v o : Version)
    → (at_least v o ≡ not (less_than v o))
      × ((at_least v o ≡ true) ⊎ (at_least o v ≡ true))
      × (at_least v v ≡ true)
unfolding at_least less_than
at_least_total v o =
    (refl, ground (arith, compare_internal-negate v o), ground (arith, compare_internal-negate v v))
