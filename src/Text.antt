-- ===== src/Text.antt =====
-- Go strings that the code walks byte by byte, as lists of bytes, and what the source uses of the
-- packages strings, strconv and fmt on them.
pub mod Decimal
pub mod Order
pub mod Split
use public_pkg.Common.{
  ℕ, Bool, true, false, String, code, List, [], ◌∷◌, ◌==◌, leb, ◌&&◌, ◌||◌, if◌then◌else◌,
}

abbrev pub Bytes : Type 0
Bytes = List ℕ

-- The code points of a literal, which are its bytes where the text is ASCII.
abbrev pub codes : String → Bytes
codes String.[] = []
codes (String.◌∷◌ c s) = code c ∷ codes s

abbrev pub is_empty : Bytes → Bool
is_empty [] = true
is_empty (c ∷ s) = false

-- `s == t`
abbrev pub bytes_eq : Bytes → Bytes → Bool
bytes_eq [] [] = true
bytes_eq [] (d ∷ t) = false
bytes_eq (c ∷ s) [] = false
bytes_eq (c ∷ s) (d ∷ t) = c == d && bytes_eq s t

abbrev pub is_digit : ℕ → Bool
is_digit c = leb b'0' c && leb c b'9'

-- `strings.HasPrefix(s, "0")`
abbrev pub has_zero_prefix : Bytes → Bool
has_zero_prefix [] = false
has_zero_prefix (c ∷ s) = c == b'0'
