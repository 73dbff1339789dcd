-- ===== src/Version/Print.antt =====
-- `String`.
pub mod Components
pub mod RoundTrip
pub mod Sound
use public_pkg.Common.{ℕ, Bool, true, false, List, [], ◌∷◌, ◌++◌, Option, none, some, if◌then◌else◌}
use public_pkg.Text.{Bytes, codes, is_empty}
use public_pkg.Text.Decimal.{format_uint}
use public_pkg.Version.{Version}

-- The loop over the components; `first` is `i == 0`.
unfoldable pub print_components : Bool → List ℕ → Bytes
print_components first [] = []
print_components first (n ∷ ns) =
    (if first then [] else b'.' ∷ []) ++ (format_uint n ++ print_components false ns)

abbrev pub print_mark : ℕ → Bytes → Bytes
print_mark mark s = if is_empty s then [] else mark ∷ s

-- A nil pointer is `none`.
unfoldable pub to_string : Option Version → Bytes
to_string none = codes "<nil>"
to_string (some v) =
    print_components true v.components
    ++ (print_mark b'-' v.pre_release ++ print_mark b'+' v.build_metadata)
