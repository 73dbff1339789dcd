-- ===== src/Version/Examples.antt =====
-- The theorems about versions at versions and strings that occur.
use mathlib.Core.List.{Memᴰ}
use public_pkg.Common.{true, false, List, [], ◌∷◌, some, ok, err, ◌≡◌, refl}
use public_pkg.Text.{Bytes, codes}
use public_pkg.Text.Decimal.{parse_uint}
use public_pkg.Text.Split.{split}
use public_pkg.Version.{Version}
use public_pkg.Version.Parse.{
  parse, zero_prefixed, version_match, skip_spaces, dotted, has_line_feed, extra_match, marked,
  read_components, check_pre_release, read_extra,
}
use public_pkg.Version.Print.{to_string}
use public_pkg.Version.Print.RoundTrip.{IsWellFormed}
use public_pkg.Version.Print.Sound.{parse-IsWellFormed, parse-to_string-parse}
use public_pkg.Version.Compare.{compare_internal, compare_components, less_than}
use public_pkg.Version.Compare.Antisymmetry.{negate, compare_internal-negate}
use public_pkg.Version.Compare.Numbers.{Verdict, compare_components-Verdict}
use public_pkg.Version.Access.{major, highest_supported_version, search_highest}
use public_pkg.Version.Access.Highest.{highest_supported_version_greatest}

abbrev beta : Version
beta = record {
  components = 1 ∷ 2 ∷ 3 ∷ [];
  semver = true;
  pre_release = codes "beta.2";
  build_metadata = codes "exp-sha";
}

abbrev final : Version
final = record { components = 1 ∷ 2 ∷ 3 ∷ []; semver = true; pre_release = []; build_metadata = [] }

parsed_beta : parse (codes " v1.2.3-beta.2+exp-sha ") true ≡ ok beta
unfolding parse version_match skip_spaces dotted has_line_feed extra_match marked read_components
    check_pre_release split parse_uint
parsed_beta = refl

zero_prefix : parse (codes "1.02.3") true ≡ err (zero_prefixed (codes "02"))
unfolding parse version_match skip_spaces dotted has_line_feed read_components split parse_uint
zero_prefix = refl

parse-IsWellFormed_example : IsWellFormed beta × (true ≡ true)
parse-IsWellFormed_example =
    parse-IsWellFormed (codes " v1.2.3-beta.2+exp-sha ") true beta parsed_beta

parse-to_string-parse_example : parse (to_string (some beta)) true ≡ ok beta
parse-to_string-parse_example =
    parse-to_string-parse (codes " v1.2.3-beta.2+exp-sha ") true beta parsed_beta

compare_internal-negate_example : compare_internal final beta ≡ negate (compare_internal beta final)
compare_internal-negate_example = compare_internal-negate beta final

compare_components-Verdict_example :
    Verdict (1 ∷ 4 ∷ []) (1 ∷ 4 ∷ 0 ∷ 1 ∷ []) (compare_components (1 ∷ 4 ∷ []) (1 ∷ 4 ∷ 0 ∷ 1 ∷ []))
compare_components-Verdict_example = compare_components-Verdict (1 ∷ 4 ∷ []) (1 ∷ 4 ∷ 0 ∷ 1 ∷ [])

abbrev kubes : List Bytes
kubes = codes "v1.9" ∷ codes "v1.10" ∷ codes "v2.0" ∷ []

abbrev ten : Version
ten = record { components = 1 ∷ 10 ∷ []; semver = false; pre_release = []; build_metadata = [] }

found_ten : highest_supported_version kubes ≡ ok ten
unfolding highest_supported_version search_highest parse version_match skip_spaces dotted
    has_line_feed read_components split parse_uint major less_than compare_internal
    compare_components read_extra
found_ten = refl

abbrev nine : Version
nine = record { components = 1 ∷ 9 ∷ []; semver = false; pre_release = []; build_metadata = [] }

highest_supported_version_greatest_example : less_than ten nine ≡ false
unfolding parse version_match skip_spaces dotted has_line_feed read_components split parse_uint
    major
highest_supported_version_greatest_example =
    highest_supported_version_greatest kubes ten (codes "v1.9") nine found_ten (Memᴰ.head refl) refl
      refl
