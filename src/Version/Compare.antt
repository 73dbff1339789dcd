-- ===== src/Version/Compare.antt =====
-- `compareInternal` and the operations on top of it. The int results -1, 0 and 1 are integers.
pub mod Numbers
pub mod Antisymmetry
pub mod Semantic
pub mod Transitive
use public_pkg.Common.{
  ℕ, Bool, true, false, not, List, [], ◌∷◌, Option, none, some, Result, ok, err, ◌>>=◌, ◌==◌, ltb,
  ◌&&◌, ◌||◌, if◌then◌else◌,
}
use public_pkg.Common.Int.{ℤ, pos, negsuc}
use public_pkg.Text.{Bytes, is_empty, bytes_eq}
use public_pkg.Text.Decimal.{parse_uint}
use public_pkg.Text.Order.{bytes_lt}
use public_pkg.Text.Split.{split}
use public_pkg.Version.{Version}
use public_pkg.Version.Parse.{ParseError, parse}

abbrev pub minus_one : ℤ
minus_one = negsuc 0

unfoldable pub only_zeros : List ℕ → Bool
only_zeros [] = true
only_zeros (num ∷ nums) = if num == 0 then only_zeros nums else false

-- The loop over the common components, and the test of what one side has more.
unfoldable pub compare_components : List ℕ → List ℕ → ℤ
unfolding only_zeros
compare_components [] [] = pos 0
compare_components (x ∷ v) [] = if only_zeros (x ∷ v) then pos 0 else pos 1
compare_components [] (y ∷ o) = if only_zeros (y ∷ o) then pos 0 else minus_one
compare_components (x ∷ v) (y ∷ o) =
    let rest = compare_components v o in
    if ltb y x then pos 1 else if ltb x y then minus_one else rest

-- One round of the loop over the pre-release identifiers; `rest` is the outcome of the next rounds.
abbrev pub compare_text : Bytes → Bytes → ℤ → ℤ
compare_text p q rest = if bytes_lt q p then pos 1 else if bytes_lt p q then minus_one else rest

abbrev pub compare_numbers : ℕ → ℕ → ℤ → ℤ
compare_numbers m n rest = if ltb n m then pos 1 else if ltb m n then minus_one else rest

abbrev pub compare_parsed : Bytes → Bytes → Option ℕ → Option ℕ → ℤ → ℤ
compare_parsed p q (some m) (some n) rest = compare_numbers m n rest
compare_parsed p q (some m) none rest = compare_text p q rest
compare_parsed p q none n rest = compare_text p q rest

unfoldable pub compare_idents : List Bytes → List Bytes → ℤ
compare_idents [] [] = pos 0
compare_idents (p ∷ ps) [] = pos 1
compare_idents [] (q ∷ qs) = minus_one
compare_idents (p ∷ ps) (q ∷ qs) =
    let rest = compare_idents ps qs in compare_parsed p q (parse_uint p) (parse_uint q) rest

unfoldable pub compare_pre_release : Bytes → Bytes → ℤ
compare_pre_release p q =
    if is_empty p && not (is_empty q)
    then pos 1
    else if not (is_empty p) && is_empty q
    then minus_one
    else if bytes_eq p q
    then pos 0
    else compare_idents (split b'.' p) (split b'.' q)

-- What stands behind the numeric comparison is reached only where that ends in 0.
abbrev or_else : ℤ → ℤ → ℤ
or_else (pos n) r = if n == 0 then r else pos n
or_else (negsuc n) r = negsuc n

unfoldable pub compare_internal : Version → Version → ℤ
compare_internal v other = or_else (compare_components v.components other.components) (
    if not v.semver || not other.semver
    then pos 0
    else compare_pre_release v.pre_release other.pre_release)

abbrev is_minus_one : ℤ → Bool
is_minus_one (pos n) = false
is_minus_one (negsuc n) = n == 0

unfoldable pub at_least : Version → Version → Bool
at_least v min = not (is_minus_one (compare_internal v min))

unfoldable pub less_than : Version → Version → Bool
less_than v other = is_minus_one (compare_internal v other)

-- `Compare`
unfoldable pub compare_string : Version → Bytes → Result ParseError ℤ
compare_string v other = parse other v.semver >>= λ ov. ok (compare_internal v ov)
